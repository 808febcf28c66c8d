-- ===== src/Damon/Session.antt =====
-- pkg/damon/start_stop.go: `start` and `Stop`. A path is the list of its elements under the sysfs
-- root. The kernel is the argument `accepts`: whether it takes a write, given the writes before it.
pub mod Order
use memaudit.Base.{
  ℕ, suc, ◌+◌, Bool, true, false, List, [], ◌∷◌, ◌++◌, String, Bytes, codes, Result, ok, err, add64,
  format_uint, length, if◌then◌else◌,
}

abbrev pub FilePath : Type 0
FilePath = List Bytes

-- pkg/damon/iomem.go: an inclusive range.
pub record AddrRange : Type 0 where
  pub start : ℕ
  pub end : ℕ

pub record Config : Type 0 where
  pub ops : Bytes
  pub sample_us : ℕ
  pub aggr_us : ℕ
  pub update_us : ℕ
  pub min_regions : ℕ
  pub max_regions : ℕ
  pub regions : List AddrRange

pub record SysfsWrite : Type 0 where
  pub path : FilePath
  pub value : Bytes

-- A session is the path of its kdamond.
pub record Session : Type 0 where
  pub kdamond : FilePath

abbrev pub at : FilePath → Bytes → SysfsWrite
at path value = record { path = path; value = value }

abbrev pub sysfs_admin_root : FilePath
sysfs_admin_root = codes "kernel" ∷ codes "mm" ∷ codes "damon" ∷ codes "admin" ∷ []

abbrev pub kdamond_path : FilePath
kdamond_path = sysfs_admin_root ++ (codes "kdamonds" ∷ codes "0" ∷ [])

abbrev pub context_path : FilePath
context_path = kdamond_path ++ (codes "contexts" ∷ codes "0" ∷ [])

abbrev pub state_path : FilePath
state_path = kdamond_path ++ (codes "state" ∷ [])

abbrev pub max_u64_str : Bytes
max_u64_str = codes "18446744073709551615"

-- The two writes of one region. The end of an `AddrRange` is inclusive, DAMON's is not.
unfoldable pub region_writes : ℕ → List AddrRange → List SysfsWrite
region_writes i [] = []
region_writes i (r ∷ regions) =
    let rd = context_path ++ (codes "targets" ∷ codes "0" ∷ codes "regions" ∷ format_uint i ∷ []) in
    at (rd ++ codes "start" ∷ []) (format_uint r.start)
    ∷ at (rd ++ codes "end" ∷ []) (format_uint (add64 r.end 1))
    ∷ region_writes (i + 1) regions

unfoldable pub target_writes : Config → List SysfsWrite
target_writes cfg =
    let c = context_path in
    let attrs = context_path ++ codes "monitoring_attrs" ∷ [] in
    at (sysfs_admin_root ++ (codes "kdamonds" ∷ codes "nr_kdamonds" ∷ [])) (codes "1")
    ∷ at (kdamond_path ++ (codes "contexts" ∷ codes "nr_contexts" ∷ [])) (codes "1")
    ∷ at (c ++ (codes "operations" ∷ [])) cfg.ops
    ∷ at (attrs ++ (codes "intervals" ∷ codes "sample_us" ∷ [])) (format_uint cfg.sample_us)
    ∷ at (attrs ++ (codes "intervals" ∷ codes "aggr_us" ∷ [])) (format_uint cfg.aggr_us)
    ∷ at (attrs ++ (codes "intervals" ∷ codes "update_us" ∷ [])) (format_uint cfg.update_us)
    ∷ at (attrs ++ (codes "nr_regions" ∷ codes "min" ∷ [])) (format_uint cfg.min_regions)
    ∷ at (attrs ++ (codes "nr_regions" ∷ codes "max" ∷ [])) (format_uint cfg.max_regions)
    ∷ at (c ++ (codes "targets" ∷ codes "nr_targets" ∷ [])) (codes "1")
    ∷ at (c ++ (codes "targets" ∷ codes "0" ∷ codes "regions" ∷ codes "nr_regions" ∷ []))
        (format_uint (length cfg.regions))
    ∷ []

abbrev pub scheme_path : FilePath
scheme_path = context_path ++ (codes "schemes" ∷ codes "0" ∷ [])

abbrev pub scheme_writes : List SysfsWrite
scheme_writes =
    let pattern_path = scheme_path ++ codes "access_pattern" ∷ [] in
    at (context_path ++ (codes "schemes" ∷ codes "nr_schemes" ∷ [])) (codes "1")
    ∷ at (scheme_path ++ (codes "action" ∷ [])) (codes "stat")
    ∷ at (pattern_path ++ (codes "sz" ∷ codes "min" ∷ [])) (codes "0")
    ∷ at (pattern_path ++ (codes "sz" ∷ codes "max" ∷ [])) max_u64_str
    ∷ at (pattern_path ++ (codes "nr_accesses" ∷ codes "min" ∷ [])) (codes "0")
    ∷ at (pattern_path ++ (codes "nr_accesses" ∷ codes "max" ∷ [])) max_u64_str
    ∷ at (pattern_path ++ (codes "age" ∷ codes "min" ∷ [])) (codes "0")
    ∷ at (pattern_path ++ (codes "age" ∷ codes "max" ∷ [])) max_u64_str
    ∷ []

unfoldable pub config_writes : Config → List SysfsWrite
unfolding region_writes target_writes
config_writes cfg = target_writes cfg ++ (region_writes 0 cfg.regions ++ scheme_writes)

unfoldable pub off_write : SysfsWrite
off_write = at state_path (codes "off")

unfoldable pub on_write : SysfsWrite
on_write = at state_path (codes "on")

-- The writes so far, in order, and the outcome: the write that failed, or the value.
module _ (accepts : List SysfsWrite → SysfsWrite → Bool) where
  unfoldable pub write_all :
      List SysfsWrite → List SysfsWrite → List SysfsWrite × Result SysfsWrite (Unit {0})
  write_all log [] = (log, ok tt)
  write_all log (w ∷ writes) =
      let rest = write_all (log ++ w ∷ []) writes in
      if accepts log w then rest else (log ++ w ∷ [], err w)

  abbrev pub then_on :
      List SysfsWrite × Result SysfsWrite (Unit {0}) → List SysfsWrite × Result SysfsWrite Session
  then_on (log, err w) = (log, err w)
  then_on (log, ok u) =
      if accepts log on_write
      then (log ++ on_write ∷ [], ok (record { kdamond = kdamond_path }))
      else (log ++ on_write ∷ [], err on_write)

  -- The first write turns a leftover kdamond off, and its outcome is ignored.
  unfoldable pub start : Config → List SysfsWrite → List SysfsWrite × Result SysfsWrite Session
  start cfg log = then_on (write_all (log ++ off_write ∷ []) (config_writes cfg))

  unfoldable pub stop : Session → List SysfsWrite → List SysfsWrite × Result SysfsWrite (Unit {0})
  stop s log =
      let w = at (s.kdamond ++ codes "state" ∷ []) (codes "off") in
      if accepts log w then (log ++ w ∷ [], ok tt) else (log ++ w ∷ [], err w)
