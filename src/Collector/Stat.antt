-- ===== src/Collector/Stat.antt =====
-- internal/collector: files of one number, and files of `key value` lines. `readUintFile`
-- (hugepages.go); `plainKV`, `scanReader` and
-- `scanKV` (numa.go); `readMemoryStat`, `readNullableUint` and `parseNullableUint` (cgroup.go). The stat
-- fields of `CgroupMem` are addressed by their keys, which are also their JSON names. Lines are below
-- the limit of `bufio.Scanner`.
pub mod Last
use memaudit.Base.{
  ℕ, Bool, true, false, List, [], ◌∷◌, map, any, Option, none, some, Bytes, bytes_eq, codes, fields,
  raw_lines, drop_cr, trim_space, Result, ok, err, ◌>>=◌, NumError, parse_uint, max_uint64,
  if◌then◌else◌,
}

-- The keys of `cgroupStatFields`.
abbrev pub cgroup_stat_keys : List Bytes
cgroup_stat_keys =
    codes "anon"
    ∷ codes "file"
    ∷ codes "kernel"
    ∷ codes "slab_reclaimable"
    ∷ codes "slab_unreclaimable"
    ∷ codes "file_mapped"
    ∷ codes "file_dirty"
    ∷ codes "inactive_anon"
    ∷ codes "active_anon"
    ∷ codes "inactive_file"
    ∷ codes "active_file"
    ∷ codes "workingset_refault_anon"
    ∷ codes "workingset_refault_file"
    ∷ codes "workingset_activate_anon"
    ∷ codes "workingset_activate_file"
    ∷ codes "pgscan"
    ∷ codes "pgsteal"
    ∷ []

abbrev pub is_stat_key : Bytes → Bool
is_stat_key key = any (λ (k : Bytes). bytes_eq key k) cgroup_stat_keys

-- The stat fields of a record.
abbrev pub Stats : Type 0
Stats = Bytes → ℕ

abbrev pub no_stats : Stats
no_stats key = 0

abbrev pub set_stat : Bytes → ℕ → Stats → Stats
set_stat key n stats k = if bytes_eq k key then n else stats k

abbrev pub plain_kv : List Bytes → Option (Bytes × Bytes)
plain_kv [] = none
plain_kv (key ∷ []) = none
plain_kv (key ∷ val ∷ rest) = some (key, val)

-- The callback of `readMemoryStat` on one pair.
unfoldable pub apply_stat : Bytes → Bytes → Stats → Result NumError Stats
apply_stat key val stats =
    if is_stat_key key
    then (parse_uint 10 max_uint64 val >>= λ n. ok (set_stat key n stats))
    else ok stats

abbrev pub apply_kv : Option (Bytes × Bytes) → Stats → Result NumError Stats
apply_kv none stats = ok stats
apply_kv (some (key, val)) stats = apply_stat key val stats

-- `scanKV` over the fields of the lines.
unfoldable pub scan_kv : List (List Bytes) → Stats → Result NumError Stats
scan_kv [] stats = ok stats
scan_kv (line ∷ lines) stats = apply_kv (plain_kv line) stats >>= λ s. scan_kv lines s

abbrev pub scan_lines : Bytes → List (List Bytes)
scan_lines b = map (λ (l : Bytes). fields (drop_cr l)) (raw_lines b)

-- The content of a file, or no such file, or another error.
pub data FileRead : Type 0 where
  content : Bytes → FileRead
  absent unreadable : FileRead

pub data StatError : Type 0 where
  read_failed : StatError
  bad_value : NumError → StatError

abbrev pub as_stat {ℓ} : {A : Type ℓ} → Result NumError A → Result StatError A
as_stat (ok a) = ok a
as_stat (err e) = err (bad_value e)

-- A missing memory.stat leaves the fields zero.
unfoldable pub read_memory_stat : FileRead → Result StatError Stats
read_memory_stat (content b) = as_stat (scan_kv (scan_lines b) no_stats)
read_memory_stat absent = ok no_stats
read_memory_stat unreadable = err read_failed

unfoldable pub parse_nullable_uint : Bytes → Result NumError (Option ℕ)
parse_nullable_uint b =
    let s = trim_space b in
    if bytes_eq s []
    then ok none
    else if bytes_eq s (codes "max")
    then ok none
    else (parse_uint 10 max_uint64 s >>= λ n. ok (some n))

-- A missing file is no limit.
unfoldable pub read_nullable_uint : FileRead → Result StatError (Option ℕ)
read_nullable_uint (content b) = as_stat (parse_nullable_uint b)
read_nullable_uint absent = ok none
read_nullable_uint unreadable = err read_failed

-- A missing file counts as zero.
unfoldable pub read_uint_file : FileRead → Result StatError ℕ
read_uint_file (content b) = as_stat (parse_uint 10 max_uint64 (trim_space b))
read_uint_file absent = ok 0
read_uint_file unreadable = err read_failed
