-- ===== src/Collector/Scan/Last.antt =====
-- What a scan with setters stores.
use memaudit.Base.{
  ◌>>=◌, if◌then◌else◌, ℕ, ◌≡◌, inl, inr, refl, sym, ap, subst, ◌∙◌, true, false, List, [], ◌∷◌,
  Option, none, some, Bytes, bytes_eq, bytes_eq_sound, Result, ok, err, NumError, parse_uint,
  max_uint64, arith, Bool-cases, Result-cases,
}
use memaudit.Collector.Stat.{Stats, set_stat, scan_lines, FileRead, content, absent, unreadable}
use memaudit.Collector.Scan.{Pairing, Setters, apply_setter, apply_pair, scan_pairs, scan_file}

-- The value of a pair with a key.
abbrev pub value_of : Bytes → Option (Bytes × Bytes) → Option Bytes
value_of key none = none
value_of key (some (k, val)) = if bytes_eq key k then some val else none

abbrev pub or_earlier : Option Bytes → Option Bytes → Option Bytes
or_earlier (some val) earlier = some val
or_earlier none earlier = earlier

-- The value in the last line with a key.
abbrev pub last_of : Pairing → Bytes → List (List Bytes) → Option Bytes
last_of pairing key [] = none
last_of pairing key (line ∷ lines) =
    or_earlier (last_of pairing key lines) (value_of key (pairing line))

ok_inj : {s t : Stats} → ◌≡◌ {A = Result NumError Stats} (ok s) (ok t) → s ≡ t
ok_inj {s} h = ap (λ (r : Result NumError Stats). elim r [ ok x ↦ x | err e ↦ s ]) h

bind-same :
    (r : Result NumError Stats) (f g : Stats → Result NumError Stats)
    → ((s : Stats) → f s ≡ g s)
    → (r >>= f) ≡ (r >>= g)
bind-same (ok s) f g same = same s
bind-same (err e) f g same = refl

failed : {x : NumError} {f : Stats} → ◌≡◌ {A = Result NumError Stats} (err x) (ok f) → ⊥
failed h = ground arith

differ : true ≡ false → ⊥
differ h = ground arith

module _ (pairing : Pairing) (setters : Setters) where
  -- A field that has a setter holds what is stored of the last number, or what it held before; another
  -- field is left as it was.
  abbrev pub Stores : ℕ → Option Bytes → ℕ → Type 0
  Stores before none n = n ≡ before
  Stores before (some val) n =
      (m : ℕ) × (parse_uint 10 max_uint64 val ≡ ok m) × (n ≡ setters.store m)

  Stores-or_earlier :
      (a b n : ℕ) (late early : Option Bytes)
      → Stores a early b
      → Stores b late n
      → Stores a (or_earlier late early) n
  Stores-or_earlier a b n (some val) early h k = k
  Stores-or_earlier a b n none early h k = subst (λ (m : ℕ). Stores a early m) (sym k) h

  apply_setter-parsed :
      (k val : Bytes) (rec rec' : Stats)
      → setters.has k ≡ true
      → apply_setter setters k val rec ≡ ok rec'
      → (m : ℕ) × (parse_uint 10 max_uint64 val ≡ ok m) × (rec' ≡ set_stat k (setters.store m) rec)
  unfolding apply_setter
  apply_setter-parsed k val rec rec' has h = elim (Result-cases (parse_uint 10 max_uint64 val)) [
    | inl (m, e) ↦ (m, e, sym (ok_inj (rw (has, e) at h)))
    | inr (x, e) ↦ absurd (failed (rw (has, e) at h))
  ]

  apply_setter_without :
      (k val : Bytes) (rec rec' : Stats)
      → setters.has k ≡ false
      → apply_setter setters k val rec ≡ ok rec'
      → rec' ≡ rec
  unfolding apply_setter
  apply_setter_without k val rec rec' has h = sym (ok_inj (rw has at h))

  has-differs :
      (key k : Bytes) → setters.has key ≡ true → setters.has k ≡ false → bytes_eq key k ≡ false
  has-differs key k with_ without = elim (Bool-cases (bytes_eq key k)) [
    | inr e ↦ e
    | inl e ↦
        absurd (
          differ (sym with_ ∙ ap (λ (b : Bytes). setters.has b) (bytes_eq_sound key k e) ∙ without))
  ]

  lacks-differs :
      (key k : Bytes) → setters.has key ≡ false → setters.has k ≡ true → bytes_eq key k ≡ false
  lacks-differs key k without with_ = elim (Bool-cases (bytes_eq key k)) [
    | inr e ↦ e
    | inl e ↦ absurd (
        differ
          (sym with_ ∙ ap (λ (b : Bytes). setters.has b) (sym (bytes_eq_sound key k e)) ∙ without))
  ]

  apply_pair-Stores :
      (key : Bytes) (pair : Option (Bytes × Bytes)) (rec rec' : Stats)
      → setters.has key ≡ true
      → apply_pair setters pair rec ≡ ok rec'
      → Stores (rec key) (value_of key pair) (rec' key)
  apply_pair-Stores key none rec rec' has h = ap (λ (f : Stats). f key) (sym (ok_inj h))
  apply_pair-Stores key (some (k, val)) rec rec' has h = elim (Bool-cases (setters.has k)) [
    | inr without ↦
        rw (has-differs key k has without)
          (ap (λ (f : Stats). f key) (apply_setter_without k val rec rec' without h))
    | inl with_ ↦
        let (m, e, same) = apply_setter-parsed k val rec rec' with_ h in
        elim (Bool-cases (bytes_eq key k)) [
          | inl eq ↦ rw eq (m, e, ap (λ (f : Stats). f key) same ∙ rw eq refl)
          | inr ne ↦ rw ne (ap (λ (f : Stats). f key) same ∙ rw ne refl)
        ]
  ]

  apply_pair_other :
      (key : Bytes) (pair : Option (Bytes × Bytes)) (rec rec' : Stats)
      → setters.has key ≡ false
      → apply_pair setters pair rec ≡ ok rec'
      → rec' key ≡ rec key
  apply_pair_other key none rec rec' has h = ap (λ (f : Stats). f key) (sym (ok_inj h))
  apply_pair_other key (some (k, val)) rec rec' has h = elim (Bool-cases (setters.has k)) [
    | inr without ↦ ap (λ (f : Stats). f key) (apply_setter_without k val rec rec' without h)
    | inl with_ ↦
        let (m, e, same) = apply_setter-parsed k val rec rec' with_ h in
        ap (λ (f : Stats). f key) same ∙ rw (lacks-differs key k has with_) refl
  ]

  scan_pairs_other :
      (key : Bytes) (lines : List (List Bytes)) (rec rec' : Stats)
      → setters.has key ≡ false
      → scan_pairs pairing setters lines rec ≡ ok rec'
      → rec' key ≡ rec key
  unfolding scan_pairs
  scan_pairs_other key [] rec rec' has h = ap (λ (f : Stats). f key) (sym (ok_inj h))
  scan_pairs_other key (line ∷ lines) rec rec' has h =
      elim (Result-cases (apply_pair setters (pairing line) rec)) [
        | inl (r, e) ↦
            scan_pairs_other key lines r rec' has (rw e at h)
            ∙ apply_pair_other key (pairing line) rec r has e
        | inr (x, e) ↦ absurd (failed (rw e at h))
      ]

  pub scan_pairs-Stores :
      (key : Bytes) (lines : List (List Bytes)) (rec rec' : Stats)
      → setters.has key ≡ true
      → scan_pairs pairing setters lines rec ≡ ok rec'
      → Stores (rec key) (last_of pairing key lines) (rec' key)
  unfolding scan_pairs
  scan_pairs-Stores key [] rec rec' has h = ap (λ (f : Stats). f key) (sym (ok_inj h))
  scan_pairs-Stores key (line ∷ lines) rec rec' has h =
      elim (Result-cases (apply_pair setters (pairing line) rec)) [
        | inl (r, e) ↦
            Stores-or_earlier (rec key) (r key) (rec' key) (last_of pairing key lines)
              (value_of key (pairing line)) (apply_pair-Stores key (pairing line) rec r has e)
              (scan_pairs-Stores key lines r rec' has (rw e at h))
        | inr (x, e) ↦ absurd (failed (rw e at h))
      ]

  -- A scan of a file that succeeds: the file was there, each field with a setter holds what the last
  -- line with its key gives, and no other field has changed.
  pub record HasScanned (file : FileRead) (rec rec' : Stats) : Type 0 where
    pub text : Bytes
    pub was_there : file ≡ content text
    pub stored :
        (key : Bytes)
        → setters.has key ≡ true
        → Stores (rec key) (last_of pairing key (scan_lines text)) (rec' key)
    pub kept : (key : Bytes) → setters.has key ≡ false → rec' key ≡ rec key

  pub scan_file-HasScanned :
      (file : FileRead) (rec rec' : Stats)
      → scan_file pairing setters file rec ≡ ok rec'
      → HasScanned file rec rec'
  unfolding scan_file
  scan_file-HasScanned absent rec rec' h = absurd (ground arith)
  scan_file-HasScanned unreadable rec rec' h = absurd (ground arith)
  scan_file-HasScanned (content b) rec rec' h =
      elim (Result-cases (scan_pairs pairing setters (scan_lines b) rec)) [
        | inr (x, e) ↦ absurd (ground (arith, e, h))
        | inl (r, e) ↦
            let same : r ≡ rec' = ground (arith, e, h) in
            record {
              text = b;
              was_there = refl;
              stored = λ key has. scan_pairs-Stores key (scan_lines b) rec rec' has (rw same at e);
              kept = λ key has. scan_pairs_other key (scan_lines b) rec rec' has (rw same at e);
            }
      ]

  -- A scan that goes through the lines in the same way is this one.
  pub scan_pairs_unique :
      (step : List Bytes → Stats → Result NumError Stats)
      (scan : List (List Bytes) → Stats → Result NumError Stats)
      → ((line : List Bytes) (rec : Stats) → step line rec ≡ apply_pair setters (pairing line) rec)
      → ((rec : Stats) → scan [] rec ≡ ok rec)
      → ((line : List Bytes) (lines : List (List Bytes)) (rec : Stats)
          → scan (line ∷ lines) rec ≡ (step line rec >>= λ r. scan lines r))
      → (lines : List (List Bytes)) (rec : Stats)
      → scan lines rec ≡ scan_pairs pairing setters lines rec
  unfolding scan_pairs
  scan_pairs_unique step scan same at_end at_line [] rec = at_end rec
  scan_pairs_unique step scan same at_end at_line (line ∷ lines) rec =
      at_line line lines rec
      ∙ (ap (λ (r : Result NumError Stats). r >>= λ s. scan lines s) (same line rec)
          ∙ bind-same (apply_pair setters (pairing line) rec) (λ s. scan lines s)
              (λ s. scan_pairs pairing setters lines s)
              (λ s. scan_pairs_unique step scan same at_end at_line lines s))
