-- ===== src/Collector/Scan.antt =====
-- internal/collector/numa.go: `scanNodeMeminfo`, `scanKV` and `scanFile`, with the callback that
-- `collectNode` gives them: a map of setters, which all store the number in one way.
pub mod Last
use memaudit.Base.{
  ℕ, Bool, true, false, List, [], ◌∷◌, Option, none, some, Bytes, codes, cut_suffix, Result, ok,
  err, ◌>>=◌, NumError, parse_uint, max_uint64, mul64, if◌then◌else◌,
}
use memaudit.Collector.Stat.{
  Stats, set_stat, scan_lines, FileRead, content, absent, unreadable, StatError, read_failed,
  as_stat,
}

-- The pair of a line, if it has one.
abbrev pub Pairing : Type 0
Pairing = List Bytes → Option (Bytes × Bytes)

abbrev pub trim_colon : Bytes → Bytes
trim_colon key = elim (cut_suffix key (codes ":")) [ none ↦ key | some k ↦ k ]

-- `Node N Key: value [unit]`.
abbrev pub node_meminfo_kv : Pairing
node_meminfo_kv [] = none
node_meminfo_kv (a ∷ []) = none
node_meminfo_kv (a ∷ b ∷ []) = none
node_meminfo_kv (a ∷ b ∷ key ∷ []) = none
node_meminfo_kv (a ∷ b ∷ key ∷ val ∷ rest) = some (trim_colon key, val)

-- The setters: the keys they have, and what they store of a number.
pub record Setters : Type 0 where
  pub has : Bytes → Bool
  pub store : ℕ → ℕ

unfoldable pub apply_setter : Setters → Bytes → Bytes → Stats → Result NumError Stats
apply_setter setters key val rec =
    if setters.has key
    then (parse_uint 10 max_uint64 val >>= λ n. ok (set_stat key (setters.store n) rec))
    else ok rec

abbrev pub apply_pair : Setters → Option (Bytes × Bytes) → Stats → Result NumError Stats
apply_pair setters none rec = ok rec
apply_pair setters (some (key, val)) rec = apply_setter setters key val rec

unfoldable pub scan_pairs : Pairing → Setters → List (List Bytes) → Stats → Result NumError Stats
scan_pairs pairing setters [] rec = ok rec
scan_pairs pairing setters (line ∷ lines) rec =
    apply_pair setters (pairing line) rec >>= λ r. scan_pairs pairing setters lines r

-- `scanFile`: the file has to be there.
unfoldable pub scan_file : Pairing → Setters → FileRead → Stats → Result StatError Stats
scan_file pairing setters (content b) rec = as_stat (scan_pairs pairing setters (scan_lines b) rec)
scan_file pairing setters absent rec = err read_failed
scan_file pairing setters unreadable rec = err read_failed
