-- ===== src/Damon/Region.antt =====
-- pkg/damon/regions.go: `Region`, and `Snapshot`, which reads the regions back in the order of their
-- indices.
pub mod Sorted
use memaudit.Base.{
  ℕ, ◌^◌, ◌-◌, Bool, true, false, List, [], ◌∷◌, ◌++◌, Option, none, some, Bytes, codes, Result, ok,
  err, map_err, ◌>>=◌, NumError, parse_uint, trim_space, ℤ, atoi, itoa, leb_ℤ, sort, if◌then◌else◌,
  max_uint64,
}

-- A half-open range [start, end); `nr_accesses` and `age` are uint32 values.
pub record Region : Type 0 where
  pub start : ℕ
  pub end : ℕ
  pub nr_accesses : ℕ
  pub age : ℕ

-- One entry of a directory.
pub record DirEntry : Type 0 where
  pub name : Bytes
  pub is_dir : Bool

pub data SnapshotError : Type 0 where
  trigger_failed read_dir_failed read_file_failed : SnapshotError
  bad_number : NumError → SnapshotError

-- The directory tried_regions: whether the update was accepted, its entries, and the content of the
-- file of a region.
pub record TriedRegions : Type 0 where
  pub trigger : Bool
  pub entries : Option (List DirEntry)
  pub file : Bytes → Bytes → Option Bytes

unfoldable pub region_indices : List DirEntry → List ℤ
region_indices [] = []
region_indices (e ∷ entries) =
    let rest = region_indices entries in
    if e.is_dir then elim (atoi e.name) [ none ↦ rest | some n ↦ n ∷ rest ] else rest

-- readUint64File and readUint32File: a file of one number, which fits the width.
unfoldable pub read_number : ℕ → Option Bytes → Result SnapshotError ℕ
read_number limit none = err read_file_failed
read_number limit (some b) = map_err bad_number (parse_uint 10 limit (trim_space b))

unfoldable pub read_region : (Bytes → Bytes → Option Bytes) → ℤ → Result SnapshotError Region
read_region file i = do
  start ← read_number max_uint64 (file (itoa i) (codes "start"))
  end ← read_number max_uint64 (file (itoa i) (codes "end"))
  nr_accesses ← read_number (2 ^ 32 - 1) (file (itoa i) (codes "nr_accesses"))
  age ← read_number (2 ^ 32 - 1) (file (itoa i) (codes "age"))
  ok (record { start = start; end = end; nr_accesses = nr_accesses; age = age })

unfoldable pub read_regions :
    (Bytes → Bytes → Option Bytes) → List ℤ → Result SnapshotError (List Region)
read_regions file [] = ok []
read_regions file (i ∷ indices) = do
  r ← read_region file i
  regions ← read_regions file indices
  ok (r ∷ regions)

unfoldable pub snapshot_entries :
    (Bytes → Bytes → Option Bytes) → Option (List DirEntry) → Result SnapshotError (List Region)
snapshot_entries file none = err read_dir_failed
snapshot_entries file (some entries) = read_regions file (sort leb_ℤ (region_indices entries))

unfoldable pub snapshot : TriedRegions → Result SnapshotError (List Region)
unfolding snapshot_entries read_regions read_region read_number region_indices
snapshot t = if t.trigger then snapshot_entries t.file t.entries else err trigger_failed
