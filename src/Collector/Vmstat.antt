-- ===== src/Collector/Vmstat.antt =====
-- internal/collector/vmstat.go: `Collect` and `parseVmstat`. The fields of the record are addressed by
-- their keys; lines are below the limit of `bufio.Scanner`.
pub mod Last
use memaudit.Base.{
  Bool, true, false, List, [], ◌∷◌, any, Option, none, some, Bytes, bytes_eq, codes, Result, ok,
  err, ◌>>=◌, NumError, parse_uint, max_uint64, if◌then◌else◌,
}
use memaudit.Collector.Stat.{
  Stats, no_stats, set_stat, scan_lines, FileRead, content, absent, unreadable, StatError,
  read_failed, as_stat,
}

-- The keys of `vmstatFields`.
abbrev pub vmstat_keys : List Bytes
vmstat_keys =
    codes "pgscan_kswapd"
    ∷ codes "pgscan_direct"
    ∷ codes "pgsteal_kswapd"
    ∷ codes "pgsteal_direct"
    ∷ codes "pswpin"
    ∷ codes "pswpout"
    ∷ codes "workingset_refault_anon"
    ∷ codes "workingset_refault_file"
    ∷ codes "workingset_activate_anon"
    ∷ codes "workingset_activate_file"
    ∷ codes "oom_kill"
    ∷ codes "pgmajfault"
    ∷ []

abbrev pub is_vmstat_key : Bytes → Bool
is_vmstat_key key = any (λ (k : Bytes). bytes_eq key k) vmstat_keys

-- One pair: a key that is not stored is passed over.
unfoldable pub apply_vmstat : Bytes → Bytes → Stats → Result NumError Stats
apply_vmstat key val v =
    if is_vmstat_key key
    then (parse_uint 10 max_uint64 val >>= λ n. ok (set_stat key n v))
    else ok v

-- A line of other than two fields is passed over.
abbrev pub apply_line : List Bytes → Stats → Result NumError Stats
apply_line [] v = ok v
apply_line (key ∷ []) v = ok v
apply_line (key ∷ val ∷ []) v = apply_vmstat key val v
apply_line (key ∷ val ∷ more ∷ rest) v = ok v

unfoldable pub parse_vmstat : List (List Bytes) → Stats → Result NumError Stats
parse_vmstat [] v = ok v
parse_vmstat (line ∷ lines) v = apply_line line v >>= λ out. parse_vmstat lines out

-- `Collect`: the file has to be there.
unfoldable pub collect_vmstat : FileRead → Result StatError Stats
collect_vmstat (content b) = as_stat (parse_vmstat (scan_lines b) no_stats)
collect_vmstat absent = err read_failed
collect_vmstat unreadable = err read_failed
