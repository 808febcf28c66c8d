-- ===== src/Collector/Vmstat/Last.antt =====
-- What /proc/vmstat sets.
use memaudit.Base.{◌≡◌, refl, sym, ◌∙◌, true, List, [], ◌∷◌, Option, none, some, Bytes, ok}
use memaudit.Collector.Stat.{Stats}
use memaudit.Collector.Stat.Last.{Holds, plain_setters, Stores-Holds}
use memaudit.Collector.Scan.{apply_setter, apply_pair, scan_pairs}
use memaudit.Collector.Scan.Last.{last_of, scan_pairs-Stores, scan_pairs_unique}
use memaudit.Collector.Vmstat.{is_vmstat_key, apply_vmstat, apply_line, parse_vmstat}

-- The key and the value of a line of exactly two fields.
abbrev pub pair_of : List Bytes → Option (Bytes × Bytes)
pair_of [] = none
pair_of (key ∷ []) = none
pair_of (key ∷ val ∷ []) = some (key, val)
pair_of (key ∷ val ∷ more ∷ rest) = none

-- The value behind a key in the last line that has it.
abbrev pub last_pair : Bytes → List (List Bytes) → Option Bytes
last_pair key lines = last_of pair_of key lines

apply_line-apply_pair :
    (line : List Bytes) (v : Stats)
    → apply_line line v ≡ apply_pair (plain_setters is_vmstat_key) (pair_of line) v
unfolding apply_vmstat apply_setter
apply_line-apply_pair [] v = refl
apply_line-apply_pair (key ∷ []) v = refl
apply_line-apply_pair (key ∷ val ∷ []) v = refl
apply_line-apply_pair (key ∷ val ∷ more ∷ rest) v = refl

parse_vmstat-scan_pairs :
    (lines : List (List Bytes)) (v : Stats)
    → parse_vmstat lines v ≡ scan_pairs pair_of (plain_setters is_vmstat_key) lines v
unfolding parse_vmstat
parse_vmstat-scan_pairs =
    scan_pairs_unique pair_of (plain_setters is_vmstat_key) apply_line parse_vmstat
      apply_line-apply_pair (λ v. refl) (λ line lines v. refl)

-- Where the parse of /proc/vmstat succeeds, each stored field has the number of the last line of exactly
-- two fields with its key, and without such a line the value that it had before.
pub parse_vmstat-Holds :
    (key : Bytes) (lines : List (List Bytes)) (v v' : Stats)
    → is_vmstat_key key ≡ true
    → parse_vmstat lines v ≡ ok v'
    → Holds (v key) (last_pair key lines) (v' key)
parse_vmstat-Holds key lines v v' known h =
    Stores-Holds pair_of is_vmstat_key (v key) (v' key) (last_pair key lines) (
      scan_pairs-Stores pair_of (plain_setters is_vmstat_key) key lines v v' known
        (sym (parse_vmstat-scan_pairs lines v) ∙ h))
