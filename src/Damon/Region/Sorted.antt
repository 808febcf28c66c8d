-- ===== src/Damon/Region/Sorted.antt =====
-- What `Snapshot` returns.
use mathlib.Core.List.{Perm}
use memaudit.Base.{
  ◌≡◌, inl, inr, List, [], ◌∷◌, Option, some, Bytes, ok, ℤ, leb_ℤ, leb_ℤ-total, leb_ℤ-trans, sort,
  sort-perm, sort-IsSorted, IsSorted, arith, Result-cases,
}
use memaudit.Damon.Region.{
  Region, DirEntry, TriedRegions, region_indices, read_region, read_regions, snapshot,
}

-- The regions are those of the indices, in the same order.
pub data ReadsAs (file : Bytes → Bytes → Option Bytes) : List ℤ → List Region → Type 0 where
  nil : ReadsAs file [] []
  cons :
      {i : ℤ} {r : Region} {indices : List ℤ} {regions : List Region}
      → read_region file i ≡ ok r
      → ReadsAs file indices regions
      → ReadsAs file (i ∷ indices) (r ∷ regions)

read_regions-ReadsAs :
    (file : Bytes → Bytes → Option Bytes) (indices : List ℤ) (regions : List Region)
    → read_regions file indices ≡ ok regions
    → ReadsAs file indices regions
unfolding read_regions
read_regions-ReadsAs file [] regions h = let e : regions ≡ [] = ground arith in rw e nil
read_regions-ReadsAs file (i ∷ indices) regions h = elim (Result-cases (read_region file i)) [
  | inr (x, p) ↦ absurd (ground arith)
  | inl (r, p) ↦ elim (Result-cases (read_regions file indices)) [
    | inr (x, q) ↦ absurd (ground arith)
    | inl (rest, q) ↦
        let e : regions ≡ r ∷ rest = ground arith in
        rw e (cons p (read_regions-ReadsAs file indices rest q))
  ]
]

-- A snapshot reads a region for every numbered directory, once each, in ascending order of the
-- numbers, whatever the order in which the directory lists them.
pub snapshot-IsSorted :
    (t : TriedRegions) (entries : List DirEntry) (regions : List Region)
    → t.entries ≡ some entries
    → snapshot t ≡ ok regions
    → (indices : List ℤ) × IsSorted leb_ℤ indices
      × Perm indices (region_indices entries)
      × ReadsAs t.file indices regions
snapshot-IsSorted t entries regions e h =
    let indices = sort leb_ℤ (region_indices entries) in
    let read : read_regions t.file indices ≡ ok regions = unfold snapshot in ground arith in
    (
      indices,
      sort-IsSorted leb_ℤ leb_ℤ-total leb_ℤ-trans (region_indices entries),
      sort-perm leb_ℤ (region_indices entries),
      read_regions-ReadsAs t.file indices regions read,
    )
