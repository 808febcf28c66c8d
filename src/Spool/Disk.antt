-- ===== src/Spool/Disk.antt =====
-- The spool's directory: the active file, the published segments and the temporary files of unfinished
-- rotations. A directory has no order of its own; its files are kept by name, and Spool/Listing is about
-- the entries read in any order.
use memaudit.Base.{
  Bool, true, false, List, [], ◌∷◌, Bytes, ltb, ◌==◌, bytes_eq, if◌then◌else◌, ◌≡◌, refl, arith,
  Bool-cases, inl, inr, All, bytes_eq_sound,
}

-- A file: its name and its bytes.
pub record Segment : Type 0 where
  pub name : Bytes
  pub content : Bytes

pub record Disk : Type 0 where
  pub active : Bytes
  pub segments : List Segment
  pub tmps : List Segment

-- The byte order of names, as `sort.Strings` has it.
abbrev pub bytes_lt : Bytes → Bytes → Bool
bytes_lt [] [] = false
bytes_lt [] (d ∷ t) = true
bytes_lt (c ∷ s) [] = false
bytes_lt (c ∷ s) (d ∷ t) = if ltb c d then true else if c == d then bytes_lt s t else false

-- What `os.Rename` does to the directory: a file of the new name is replaced.
unfoldable pub publish : Segment → List Segment → List Segment
publish s [] = s ∷ []
publish s (t ∷ segments) =
    let later = t ∷ publish s segments in
    if bytes_eq s.name t.name
    then s ∷ segments
    else if bytes_lt s.name t.name
    then s ∷ t ∷ segments
    else later

-- `os.Remove` of a name.
unfoldable pub remove : Bytes → List Segment → List Segment
remove name [] = []
remove name (t ∷ segments) =
    let rest = t ∷ remove name segments in if bytes_eq name t.name then segments else rest

-- The names ascend, so that there is one file of each.
abbrev pub IsListing : List Segment → Type 0
IsListing [] = Unit
IsListing (s ∷ segments) =
    All (λ (t : Segment). bytes_lt s.name t.name ≡ true) segments × IsListing segments

pub bytes_lt_irrefl : (a : Bytes) → bytes_lt a a ≡ false
bytes_lt_irrefl [] = refl
bytes_lt_irrefl (c ∷ s) = ground (arith, bytes_lt_irrefl s)

pub bytes_lt_trans :
    (a b c : Bytes) → bytes_lt a b ≡ true → bytes_lt b c ≡ true → bytes_lt a c ≡ true
bytes_lt_trans [] [] c h k = absurd (ground arith)
bytes_lt_trans [] (d ∷ t) [] h k = absurd (ground arith)
bytes_lt_trans [] (d ∷ t) (e ∷ u) h k = refl
bytes_lt_trans (b ∷ s) [] c h k = absurd (ground arith)
bytes_lt_trans (b ∷ s) (d ∷ t) [] h k = absurd (ground arith)
bytes_lt_trans (b ∷ s) (d ∷ t) (e ∷ u) h k = ground (arith, bytes_lt_trans s t u)

pub bytes_lt_total :
    (a b : Bytes) → bytes_eq a b ≡ false → bytes_lt a b ≡ false → bytes_lt b a ≡ true
bytes_lt_total [] [] e h = absurd (ground arith)
bytes_lt_total [] (d ∷ t) e h = absurd (ground arith)
bytes_lt_total (c ∷ s) [] e h = refl
bytes_lt_total (c ∷ s) (d ∷ t) e h = ground (arith, bytes_lt_total s t)

below :
    (s t : Segment) (segments : List Segment)
    → bytes_lt s.name t.name ≡ true
    → All (λ (u : Segment). bytes_lt t.name u.name ≡ true) segments
    → All (λ (u : Segment). bytes_lt s.name u.name ≡ true) segments
below s t [] h all = tt
below s t (u ∷ segments) h all =
    (bytes_lt_trans s.name t.name u.name h all.0, below s t segments h all.1)

All-publish :
    (t s : Segment) (segments : List Segment)
    → bytes_lt t.name s.name ≡ true
    → All (λ (u : Segment). bytes_lt t.name u.name ≡ true) segments
    → All (λ (u : Segment). bytes_lt t.name u.name ≡ true) (publish s segments)
unfolding publish
All-publish t s [] h all = (h, tt)
All-publish t s (u ∷ segments) h all = elim (Bool-cases (bytes_eq s.name u.name)) [
  | inl e ↦ rw e (h, all.1)
  | inr e ↦ elim (Bool-cases (bytes_lt s.name u.name)) [
    | inl l ↦ rw (e, l) (h, all)
    | inr l ↦ rw (e, l) (all.0, All-publish t s segments h all.1)
  ]
]

-- Publishing a segment keeps the names ascending.
pub publish-IsListing :
    (s : Segment) (segments : List Segment) → IsListing segments → IsListing (publish s segments)
unfolding publish
publish-IsListing s [] l = (tt, tt)
publish-IsListing s (t ∷ segments) l = elim (Bool-cases (bytes_eq s.name t.name)) [
  | inl e ↦ rw e (rw (bytes_eq_sound s.name t.name e) l.0, l.1)
  | inr e ↦ elim (Bool-cases (bytes_lt s.name t.name)) [
    | inl b ↦ rw (e, b) ((b, below s t segments b l.0), l)
    | inr b ↦
        rw (e, b)
          (
            All-publish t s segments (bytes_lt_total s.name t.name e b) l.0,
            publish-IsListing s segments l.1,
          )
  ]
]
