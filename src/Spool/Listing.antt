-- ===== src/Spool/Listing.antt =====
-- What `Segments` makes of the spool's directory, in whatever order its entries are read.
use mathlib.Core.List.{Perm, foldr}
use mathlib.Core.List.Perm
use memaudit.Base.{
  ◌≡◌, refl, sym, ap, subst, ◌∙◌, inl, inr, true, false, List, [], ◌∷◌, ◌++◌, map, Bytes, codes,
  some, ok, All, arith, Bool-cases, bytes_eq, bytes_eq_sound, insert, sort, sort-of_sorted,
  insert_swap, IsSorted, if◌then◌else◌,
}
use memaudit.Spool.Disk.{
  Segment, Disk, IsListing, bytes_lt, bytes_lt_trans, bytes_lt_total, bytes_lt_irrefl,
}
use memaudit.Spool.Ops.{names_le, is_segment, segment_entries, segments}

bytes_lt_asym : (a b : Bytes) → bytes_lt a b ≡ true → bytes_lt b a ≡ false
bytes_lt_asym a b h = elim (Bool-cases (bytes_lt b a)) [
  | inr not_less ↦ not_less
  | inl less ↦ absurd (ground (arith, bytes_lt_trans a b a h less, bytes_lt_irrefl a))
]

names_le_total : (a b : Bytes) → names_le a b ≡ false → names_le b a ≡ true
names_le_total a b h = ground (arith, bytes_lt_asym b a)

names_le_antisym : (a b : Bytes) → names_le a b ≡ true → names_le b a ≡ true → a ≡ b
names_le_antisym a b h k = elim (Bool-cases (bytes_eq a b)) [
  | inl e ↦ bytes_eq_sound a b e
  | inr e ↦ absurd (ground (arith, bytes_lt_total a b e))
]

names_le_trans : (a b c : Bytes) → names_le a b ≡ true → names_le b c ≡ true → names_le a c ≡ true
names_le_trans a b c h k = elim (Bool-cases (bytes_lt c a)) [
  | inr not_less ↦ rw not_less refl
  | inl c_a ↦ elim (Bool-cases (bytes_eq a b)) [
    | inl e ↦ absurd (ground (arith, subst (λ x. bytes_lt c x ≡ true) (bytes_eq_sound a b e) c_a))
    | inr e ↦ absurd (ground (arith, bytes_lt_total a b e, bytes_lt_trans c a b c_a))
  ]
]

-- One entry of the loop, into names that are sorted already.
abbrev add_entry : Bytes → List Bytes → List Bytes
add_entry name names = if is_segment name then insert names_le name names else names

sorted_entries :
    (entries : List Bytes) → sort names_le (segment_entries entries) ≡ foldr add_entry [] entries
unfolding segment_entries sort
sorted_entries [] = refl
sorted_entries (name ∷ entries) = elim (Bool-cases (is_segment name)) [
  | inl e ↦ rw e (ap (insert names_le name) (sorted_entries entries))
  | inr e ↦ rw e (sorted_entries entries)
]

add_entry_swap :
    (a b : Bytes) (names : List Bytes)
    → add_entry a (add_entry b names) ≡ add_entry b (add_entry a names)
add_entry_swap a b names = elim (Bool-cases (is_segment a)) [
  | inr e ↦ rw e refl
  | inl e ↦ elim (Bool-cases (is_segment b)) [
    | inr f ↦ rw (e, f) refl
    | inl f ↦
        rw (e, f) (insert_swap names_le names_le_total names_le_trans names_le_antisym a b names)
  ]
]

-- `Segments` gives the same names whatever the order of the entries.
entries_perm :
    (xs ys : List Bytes)
    → Perm xs ys
    → sort names_le (segment_entries xs) ≡ sort names_le (segment_entries ys)
entries_perm xs ys p =
    sorted_entries xs
    ∙ Perm.foldr-eq (hlevel) add_entry add_entry_swap p []
    ∙ sym (sorted_entries ys)

abbrev pub names : List Segment → List Bytes
names = map (λ (t : Segment). t.name)

-- The names in the directory: the active file, the temporary ones, the segments.
abbrev pub dir_names : Disk → List Bytes
dir_names d = codes "active.jsonl" ∷ (names d.tmps ++ names d.segments)

-- The segments' names ascend and have the suffix of a segment, those of the temporary files have not.
pub record IsStore (d : Disk) : Type 0 where
  pub ascending : IsListing d.segments
  pub suffixed : All (λ (t : Segment). is_segment t.name ≡ true) d.segments
  pub apart : All (λ (t : Segment). is_segment t.name ≡ false) d.tmps

entries_kept :
    (segs : List Segment)
    → All (λ (t : Segment). is_segment t.name ≡ true) segs
    → segment_entries (names segs) ≡ names segs
unfolding segment_entries
entries_kept [] all = refl
entries_kept (t ∷ segs) (e, all) = rw e (ap (λ l. t.name ∷ l) (entries_kept segs all))

entries_left_out :
    (tmps : List Segment) (others : List Bytes)
    → All (λ (t : Segment). is_segment t.name ≡ false) tmps
    → segment_entries (names tmps ++ others) ≡ segment_entries others
unfolding segment_entries
entries_left_out [] others all = refl
entries_left_out (t ∷ tmps) others (e, all) = rw e (entries_left_out tmps others all)

dir_entries : (d : Disk) → IsStore d → segment_entries (dir_names d) ≡ names d.segments
unfolding segment_entries
dir_entries d store =
    entries_left_out d.tmps (names d.segments) store.apart ∙ entries_kept d.segments store.suffixed

names_le-All :
    (name : Bytes) (segs : List Segment)
    → All (λ (t : Segment). bytes_lt name t.name ≡ true) segs
    → All (λ (other : Bytes). names_le name other ≡ true) (names segs)
names_le-All name [] all = tt
names_le-All name (t ∷ segs) (h, all) =
    (rw (bytes_lt_asym name t.name h) refl, names_le-All name segs all)

names-IsSorted : (segs : List Segment) → IsListing segs → IsSorted names_le (names segs)
names-IsSorted [] l = tt
names-IsSorted (t ∷ segs) (all, l) = (names_le-All t.name segs all, names-IsSorted segs l)

-- For a directory in which the segments' names, as published, ascend and have the suffix, and those of the
-- temporary files have not: in whatever order the directory is read, `Segments` returns exactly the names
-- of the segments, in ascending order, and neither the active file nor a temporary one.
pub segments-names :
    (d : Disk) (entries : List Bytes)
    → IsStore d
    → Perm entries (dir_names d)
    → segments (some entries) ≡ ok (names d.segments)
unfolding segments
segments-names d entries store p = ap ok (
    entries_perm entries (dir_names d) p
    ∙ ap (sort names_le) (dir_entries d store)
    ∙ sort-of_sorted names_le (names d.segments) (names-IsSorted d.segments store.ascending))
