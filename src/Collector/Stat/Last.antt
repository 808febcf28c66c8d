-- ===== src/Collector/Stat/Last.antt =====
-- What a file of `key value` lines sets.
use memaudit.Base.{
  ℕ, ◌≡◌, refl, sym, subst, ◌∙◌, Bool, true, List, Option, none, some, Bytes, ok, parse_uint,
  max_uint64,
}
use memaudit.Collector.Stat.{is_stat_key, Stats, plain_kv, apply_stat, apply_kv, scan_kv}
use memaudit.Collector.Scan.{Setters, Pairing, apply_setter, apply_pair, scan_pairs}
use memaudit.Collector.Scan.Last.{last_of, Stores, scan_pairs-Stores, scan_pairs_unique}

-- The value behind a key in the last line that has it.
abbrev pub last_value : Bytes → List (List Bytes) → Option Bytes
last_value key lines = last_of plain_kv key lines

-- The number that a field has where the last line with its key gives this value, if there is one.
abbrev pub Holds : ℕ → Option Bytes → ℕ → Type 0
Holds before none n = n ≡ before
Holds before (some val) n = parse_uint 10 max_uint64 val ≡ ok n

-- Setters that store a number as it is.
abbrev pub plain_setters : (Bytes → Bool) → Setters
plain_setters has = record { has = has; store = λ n. n }

pub Stores-Holds :
    (pairing : Pairing) (has : Bytes → Bool) (before n : ℕ) (val : Option Bytes)
    → Stores pairing (plain_setters has) before val n
    → Holds before val n
Stores-Holds pairing has before n none h = h
Stores-Holds pairing has before n (some val) (m, read, same) =
    subst (λ (k : ℕ). parse_uint 10 max_uint64 val ≡ ok k) (sym same) read

apply_kv-apply_pair :
    (pair : Option (Bytes × Bytes)) (stats : Stats)
    → apply_kv pair stats ≡ apply_pair (plain_setters is_stat_key) pair stats
unfolding apply_stat apply_setter
apply_kv-apply_pair none stats = refl
apply_kv-apply_pair (some (key, val)) stats = refl

scan_kv-scan_pairs :
    (lines : List (List Bytes)) (stats : Stats)
    → scan_kv lines stats ≡ scan_pairs plain_kv (plain_setters is_stat_key) lines stats
unfolding scan_kv
scan_kv-scan_pairs =
    scan_pairs_unique plain_kv (plain_setters is_stat_key)
      (λ line stats. apply_kv (plain_kv line) stats) scan_kv
      (λ line stats. apply_kv-apply_pair (plain_kv line) stats) (λ stats. refl)
      (λ line lines stats. refl)

-- Where a scan of `key value` lines succeeds, each known field has the number of the last line with its
-- key, and without such a line the value that it had before.
pub scan_kv-Holds :
    (key : Bytes) (lines : List (List Bytes)) (stats stats' : Stats)
    → is_stat_key key ≡ true
    → scan_kv lines stats ≡ ok stats'
    → Holds (stats key) (last_value key lines) (stats' key)
scan_kv-Holds key lines stats stats' known h =
    Stores-Holds plain_kv is_stat_key (stats key) (stats' key) (last_value key lines) (
      scan_pairs-Stores plain_kv (plain_setters is_stat_key) key lines stats stats' known
        (sym (scan_kv-scan_pairs lines stats) ∙ h))
