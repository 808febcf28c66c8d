-- ===== src/Synth/Size.antt =====
-- cmd/memaudit-synth/size.go: `parseSize`.
use memaudit.Base.{
  ℕ, ◌*◌, ◌/◌, ◌^◌, ◌≤◌, ◌≡◌, ◌≢◌, ◌↔◌, ◌∙◌, refl, sym, ap, subst, map, length, none, some, List,
  [], ◌∷◌, ◌++◌, Bytes, codes, cut_suffix, arith, Result, ok, err, map_err, ◌>>=◌, NumError,
  parse_uint, max_uint64, mul64, ltb, if◌then◌else◌, All, InBase, digits_value, parse_uint_sound,
  parse_uint_complete, cut_suffix_sound, cut_suffix-append, append-right_inj, Option-cases, inl,
  inr, ◌⊎◌, Result-cases,
}

pub data SizeError : Type 0 where
  missing_number overflows no_suffix : SizeError
  bad_number : NumError → SizeError

-- A row of the table: the suffix and its multiplier.
abbrev pub SizeSuffix : Type 0
SizeSuffix = Bytes × ℕ

abbrev pub size_suffixes : List SizeSuffix
size_suffixes =
    (codes "TiB", 1024 * 1024 * 1024 * 1024)
    ∷ (codes "GiB", 1024 * 1024 * 1024)
    ∷ (codes "MiB", 1024 * 1024)
    ∷ (codes "KiB", 1024)
    ∷ []

-- n * mult, unless it does not fit in 64 bits.
scale : ℕ → ℕ → Result SizeError ℕ
scale n mult = if ltb (max_uint64 / mult) n then err overflows else ok (mul64 n mult)

-- The number before a suffix, times its multiplier.
scaled : Bytes → ℕ → Result SizeError ℕ
scaled [] mult = err missing_number
scaled (c ∷ num_part) mult = do
  n ← map_err bad_number (parse_uint 10 max_uint64 (c ∷ num_part))
  scale n mult

-- The first row whose suffix ends the text decides.
parse_by : List SizeSuffix → Bytes → Result SizeError ℕ
parse_by [] s = err no_suffix
parse_by ((suffix, mult) ∷ rest) s = elim (cut_suffix s suffix) [
  | none ↦ parse_by rest s
  | some num_part ↦ scaled num_part mult
]

unfoldable pub parse_size : Bytes → Result SizeError ℕ
unfolding parse_by scaled scale
parse_size s = parse_by size_suffixes s

-- The four units, as the documentation names them.
pub data SizeUnit : Type 0 where
  tib gib mib kib : SizeUnit

abbrev pub suffix_of : SizeUnit → Bytes
suffix_of tib = codes "TiB"
suffix_of gib = codes "GiB"
suffix_of mib = codes "MiB"
suffix_of kib = codes "KiB"

abbrev pub bytes_of : SizeUnit → ℕ
bytes_of tib = 2 ^ 40
bytes_of gib = 2 ^ 30
bytes_of mib = 2 ^ 20
bytes_of kib = 2 ^ 10

-- `num` is a decimal number, `s` is `num` with the unit's suffix, and `v` is that many bytes,
-- which fit in 64 bits.
pub record IsSize (unit : SizeUnit) (num s : Bytes) (v : ℕ) : Type 0 where
  pub text : s ≡ num ++ suffix_of unit
  pub number_given : num ≢ []
  pub decimal : All (InBase 10) num
  pub exact : v ≡ digits_value 10 0 num * bytes_of unit
  pub fits : v ≤ max_uint64

-- The overflow test refuses exactly the products that do not fit.
scale_sound :
    (unit : SizeUnit) (n v : ℕ)
    → scale n (bytes_of unit) ≡ ok v
    → (v ≡ n * bytes_of unit) × (v ≤ max_uint64)
unfolding scale
scale_sound tib n v h = ground arith
scale_sound gib n v h = ground arith
scale_sound mib n v h = ground arith
scale_sound kib n v h = ground arith

scale_complete :
    (unit : SizeUnit) (n : ℕ)
    → n * bytes_of unit ≤ max_uint64
    → scale n (bytes_of unit) ≡ ok (n * bytes_of unit)
unfolding scale
scale_complete tib n h = ground arith
scale_complete gib n h = ground arith
scale_complete mib n h = ground arith
scale_complete kib n h = ground arith

scaled_sound :
    (unit : SizeUnit) (num : Bytes) (v : ℕ)
    → scaled num (bytes_of unit) ≡ ok v
    → IsSize unit num (num ++ suffix_of unit) v
unfolding scaled
scaled_sound unit [] v h = absurd (cc)
scaled_sound unit (c ∷ num) v h = elim (Result-cases (parse_uint 10 max_uint64 (c ∷ num))) [
  | inl (n, p) ↦
      let (ne, digs, val, fit) = parse_uint_sound 10 max_uint64 (c ∷ num) {r = n} p in
      let (product, fits) = scale_sound unit n v (ground arith) in
      record {
        text = refl;
        number_given = ne;
        decimal = digs;
        exact = product ∙ ap (λ (k : ℕ). k * bytes_of unit) val;
        fits = fits;
      }
  | inr (x, p) ↦ absurd (ground arith)
]

le_of_scaled : (unit : SizeUnit) (n : ℕ) → n * bytes_of unit ≤ max_uint64 → n ≤ max_uint64
le_of_scaled tib n h = omega arith
le_of_scaled gib n h = omega arith
le_of_scaled mib n h = omega arith
le_of_scaled kib n h = omega arith

scaled_complete :
    (unit : SizeUnit) (num s : Bytes) (v : ℕ)
    → IsSize unit num s v
    → scaled num (bytes_of unit) ≡ ok v
scaled_complete unit [] s v h = absurd (h.number_given refl)
scaled_complete unit (c ∷ num) s v h =
    let n : ℕ = digits_value 10 0 (c ∷ num) in
    let fits : n * bytes_of unit ≤ max_uint64 = subst (λ k. k ≤ max_uint64) h.exact h.fits in
    let read =
      parse_uint_complete 10 max_uint64 (c ∷ num) (omega arith) h.number_given h.decimal
        (le_of_scaled unit n fits) in
    unfold scaled in (rw read (scale_complete unit n fits ∙ ap ok (sym h.exact)))

length-suffix_of : (unit : SizeUnit) → length (suffix_of unit) ≡ 3
length-suffix_of tib = refl
length-suffix_of gib = refl
length-suffix_of mib = refl
length-suffix_of kib = refl

suffix_of_inj : (u w : SizeUnit) → suffix_of u ≡ suffix_of w → u ≡ w
suffix_of_inj tib tib e = refl
suffix_of_inj gib gib e = refl
suffix_of_inj mib mib e = refl
suffix_of_inj kib kib e = refl
suffix_of_inj _ _ e = ground arith

-- A text ends in at most one of the four suffixes.
one_unit : (u w : SizeUnit) (q r : Bytes) → q ++ suffix_of u ≡ r ++ suffix_of w → (q ≡ r) × (u ≡ w)
one_unit u w q r e =
    let (same, ends) =
      append-right_inj q r (suffix_of u) (suffix_of w)
        (length-suffix_of u ∙ sym (length-suffix_of w)) e in
    (same, suffix_of_inj u w ends)

abbrev row : SizeUnit → SizeSuffix
row unit = (suffix_of unit, bytes_of unit)

abbrev Has : SizeUnit → List SizeUnit → Type 0
Has u [] = ⊥
Has u (w ∷ units) = (u ≡ w) ⊎ Has u units

rows_sound :
    (units : List SizeUnit) (s : Bytes) (v : ℕ)
    → parse_by (map row units) s ≡ ok v
    → (unit : SizeUnit) × (num : Bytes) × IsSize unit num s v
unfolding parse_by
rows_sound [] s v h = absurd (cc)
rows_sound (u ∷ units) s v h = elim (Option-cases (cut_suffix s (suffix_of u))) [
  | inl e ↦ rows_sound units s v (rw (e, parse_by) at h)
  | inr (num, e) ↦ (
    u,
    num,
    rw (cut_suffix_sound s (suffix_of u) num e) (scaled_sound u num v (rw (e, parse_by) at h)),
  )
]

rows_complete :
    (units : List SizeUnit) (unit : SizeUnit) (num s : Bytes) (v : ℕ)
    → Has unit units
    → IsSize unit num s v
    → parse_by (map row units) s ≡ ok v
unfolding parse_by
rows_complete [] unit num s v here h = elim here [ ]
rows_complete (u ∷ units) unit num s v here h = elim (Option-cases (cut_suffix s (suffix_of u))) [
  | inl e ↦ rw (e, parse_by) (later (λ rest. rows_complete units unit num s v rest h) here e)
  | inr (r, e) ↦ rw (e, parse_by) (found r e)
]
  where
    later :
        (Has unit units → parse_by (map row units) s ≡ ok v)
        → ((unit ≡ u) ⊎ Has unit units)
        → cut_suffix s (suffix_of u) ≡ none
        → parse_by (map row units) s ≡ ok v
    later go (inl same) e =
        let hit : cut_suffix s (suffix_of u) ≡ some num =
          rw (h.text, same) (cut_suffix-append num (suffix_of u)) in
        absurd (cc (hit, e))
    later go (inr rest) e = go rest

    found : (r : Bytes) → cut_suffix s (suffix_of u) ≡ some r → scaled r (bytes_of u) ≡ ok v
    found r e =
        let (same, u_same) =
          one_unit u unit r num (sym (cut_suffix_sound s (suffix_of u) r e) ∙ h.text) in
        rw (same, u_same) (scaled_complete unit num s v h)

every_unit : (unit : SizeUnit) → Has unit (tib ∷ gib ∷ mib ∷ kib ∷ [])
every_unit tib = inl refl
every_unit gib = inr (inl refl)
every_unit mib = inr (inr (inl refl))
every_unit kib = inr (inr (inr (inl refl)))

-- `parseSize` returns v exactly for the texts that are a decimal number followed by one of the four
-- suffixes and stand for v bytes, v below 2^64: nothing wraps around, and nothing that fits is refused.
pub parse_size_exact :
    (s : Bytes) (v : ℕ)
    → (parse_size s ≡ ok v) ↔ ((unit : SizeUnit) × (num : Bytes) × IsSize unit num s v)
unfolding parse_size
parse_size_exact s v = (
  rows_sound (tib ∷ gib ∷ mib ∷ kib ∷ []) s v,
  λ (unit, num, h). rows_complete (tib ∷ gib ∷ mib ∷ kib ∷ []) unit num s v (every_unit unit) h,
)
