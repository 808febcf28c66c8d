-- ===== src/Collector/Cgroup/Capped.antt =====
-- The cap on the number of selected cgroups.
use memaudit.Base.{
  ℕ, ◌+◌, ◌≤◌, ◌<◌, ◌≡◌, refl, sym, ap, subst, ◌∙◌, Bool, true, ◌&&◌, List, [], ◌∷◌, ◌++◌, map,
  append_assoc, append-nil, Bytes, Result, ok, ltb, leb, length, length-append, take, take-append,
  length-take_le, take_all, take_idem, arith, Bool-cases, inl, inr, leb→le, leb→gt,
}
use memaudit.Collector.Cgroup.{
  Elements, Entries, end, file, folder, Walk, CollectError, matches_any, is_possible_prefix_for_any,
  select, walk, descend, max_cgroup_depth,
}
use memaudit.Collector.Cgroup.Selection.{selected, selected-pruned, only_if}

-- Every directory can be listed.
abbrev pub AllReadable : Entries → Type 0
AllReadable end = Unit
AllReadable (file name rest) = AllReadable rest
AllReadable (folder name readable children rest) =
    (readable ≡ true) × AllReadable children × AllReadable rest

take_full {ℓ} :
    {A : Type ℓ} (n : ℕ) (xs ys : List A) → length xs ≤ n → n ≤ length xs → take n (xs ++ ys) ≡ xs
take_full n xs ys le ge =
    let same : length xs ≡ n = omega arith in
    subst (λ (m : ℕ). take m (xs ++ ys) ≡ xs) same (take-append xs ys)

map-append {ℓ κ} :
    {A : Type ℓ} {B : Type κ} (f : A → B) (xs ys : List A) → map f (xs ++ ys) ≡ map f xs ++ map f ys
map-append f [] ys = refl
map-append f (x ∷ xs) ys = ap (λ t. f x ∷ t) (map-append f xs ys)

take_thrice {ℓ} :
    {A : Type ℓ} (n : ℕ) (o a b c : List A)
    → take n (take n (take n (o ++ a) ++ b) ++ c) ≡ take n (o ++ (a ++ (b ++ c)))
take_thrice n o a b c =
    take_idem n (take n (o ++ a) ++ b) c
    ∙ ap (λ l. take n l) (append_assoc (take n (o ++ a)) b c)
    ∙ take_idem n (o ++ a) (b ++ c)
    ∙ ap (λ l. take n l) (append_assoc o a (b ++ c))

module _ {ℓ} {R : Type ℓ} (segment_matches : Bytes → Bytes → Bool) (globs : List Elements) (max : ℕ)
    (read_cgroup : Elements → Result CollectError R) (record_of : Elements → R)
    (reads : (segs : Elements) → read_cgroup segs ≡ ok (record_of segs)) where
  -- The call succeeded with these records, as far as the cap lets them in.
  abbrev pub Collects : Result CollectError (Walk R) → List R → Type ℓ
  Collects r records = (w : Walk R) × (r ≡ ok w) × (w.out ≡ take max records)

  abbrev chosen : Entries → Elements → ℕ → List R
  chosen entries segs depth = map record_of (selected segment_matches globs entries segs depth)

  select-Collects :
      (segs : Elements) (w : Walk R)
      → length w.out < max
      → Collects (select segment_matches globs max read_cgroup segs w) (
          w.out
          ++ map record_of
              (only_if segment_matches globs (matches_any segment_matches segs globs) (segs ∷ [])))
  unfolding select
  select-Collects segs w room = elim (Bool-cases (matches_any segment_matches segs globs)) [
    | inl m ↦
        rw (m, reads segs)
          (
            record w { out = w.out ++ record_of segs ∷ [] },
            refl,
            sym (
                take_all max (w.out ++ record_of segs ∷ [])
                  (omega (arith, length-append w.out (record_of segs ∷ [])))),
          )
    | inr m ↦
        rw m (
          w,
          refl,
          sym (ap (λ l. take max l) (append-nil w.out) ∙ take_all max w.out (omega arith)),
        )
  ]

  Collects-pruned :
      (w : Walk R) (paths : List Elements)
      → length w.out ≤ max
      → paths ≡ []
      → Collects (ok w) (w.out ++ map record_of paths)
  Collects-pruned w paths fits none_ = (
    w,
    refl,
    sym (
        ap (λ (l : List Elements). take max (w.out ++ map record_of l)) none_
        ∙ ap (λ l. take max l) (append-nil w.out)
        ∙ take_all max w.out fits),
  )

  descend-Collects :
      (readable : Bool) (children : Entries) (child : Elements) (depth : ℕ) (w : Walk R)
      → readable ≡ true
      → length w.out ≤ max
      → Collects
          (walk segment_matches globs max read_cgroup children child depth w)
          (w.out ++ chosen children child depth)
      → Collects
          (descend segment_matches globs max read_cgroup
            (ltb depth max_cgroup_depth && is_possible_prefix_for_any segment_matches child globs)
            readable
            (walk segment_matches globs max read_cgroup children child depth w)
            w)
          (w.out
            ++ map record_of (
                only_if segment_matches globs
                  (ltb depth max_cgroup_depth)
                  (selected segment_matches globs children child depth)))
  descend-Collects readable children child depth w e fits deeper =
      elim (Bool-cases (ltb depth max_cgroup_depth)) [
        | inr deep ↦ rw deep (Collects-pruned w [] fits refl)
        | inl shallow ↦ elim (Bool-cases (is_possible_prefix_for_any segment_matches child globs)) [
          | inl possible ↦ rw (shallow, possible, e) deeper
          | inr impossible ↦
              rw (shallow, impossible)
                (Collects-pruned w (selected segment_matches globs children child depth) fits (
                  subst (λ (l : Elements). selected segment_matches globs children l depth ≡ [])
                    (append-nil child)
                    (selected-pruned segment_matches globs children child [] depth impossible)))
        ]
      ]

  joined :
      (a b c : List Elements) (o o₁ o₂ o₃ : List R)
      → o₁ ≡ take max (o ++ map record_of a)
      → o₂ ≡ take max (o₁ ++ map record_of b)
      → o₃ ≡ take max (o₂ ++ map record_of c)
      → o₃ ≡ take max (o ++ map record_of (a ++ (b ++ c)))
  joined a b c o o₁ o₂ o₃ e₁ e₂ e₃ =
      e₃
      ∙ ap (λ l. take max (l ++ map record_of c))
          (e₂ ∙ ap (λ l. take max (l ++ map record_of b)) e₁)
      ∙ take_thrice max o (map record_of a) (map record_of b) (map record_of c)
      ∙ ap (λ l. take max (o ++ l))
          (sym (
            map-append record_of a (b ++ c)
            ∙ ap (λ l. map record_of a ++ l) (map-append record_of b c)))

  pub walk-Collects :
      (entries : Entries) (segs : Elements) (depth : ℕ) (w : Walk R)
      → AllReadable entries
      → length w.out ≤ max
      → Collects
          (walk segment_matches globs max read_cgroup entries segs depth w)
          (w.out ++ chosen entries segs depth)
  unfolding walk selected
  walk-Collects end segs depth w all fits = Collects-pruned w [] fits refl
  walk-Collects (file name rest) segs depth w all fits =
      elim (Bool-cases (leb max (length w.out))) [
        | inl full ↦ rw full (
          record w { truncated = true },
          refl,
          sym (take_full max w.out _ fits (leb→le _ _ full)),
        )
        | inr room ↦ rw room (walk-Collects rest segs depth w all fits)
      ]
  walk-Collects (folder name readable children rest) segs depth w (read, below, beside) fits =
      elim (Bool-cases (leb max (length w.out))) [
        | inl full ↦ rw full (
          record w { truncated = true },
          refl,
          sym (take_full max w.out _ fits (leb→le _ _ full)),
        )
        | inr room ↦
            let child : Elements = segs ++ name ∷ [] in
            let (w₁, e₁, o₁) = select-Collects child w (leb→gt _ _ room) in
            let fits₁ : length w₁.out ≤ max =
              subst (λ (l : List R). length l ≤ max) (sym o₁) (length-take_le max _) in
            let (w₂, e₂, o₂) =
              descend-Collects readable children child (depth + 1) w₁ read fits₁
                (walk-Collects children child (depth + 1) w₁ below fits₁) in
            let fits₂ : length w₂.out ≤ max =
              subst (λ (l : List R). length l ≤ max) (sym o₂) (length-take_le max _) in
            let (w₃, e₃, o₃) = walk-Collects rest segs depth w₂ beside fits₂ in
            rw (room, e₁, e₂, e₃)
              (
                w₃,
                refl,
                joined
                    (only_if segment_matches globs (matches_any segment_matches child globs)
                      (child ∷ []))
                    (only_if segment_matches globs (ltb (depth + 1) max_cgroup_depth)
                      (selected segment_matches globs children child (depth + 1)))
                    (selected segment_matches globs rest segs depth) w.out w₁.out w₂.out w₃.out o₁
                    o₂ o₃,
              )
      ]
