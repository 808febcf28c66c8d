-- ===== src/Agent/DamonSource.antt =====
-- internal/agent/sources.go: `damonSource`, which starts a DAMON session and probes it. As in
-- pkg/damon, the kernel is the argument `accepts`, and the session is judged by the writes.
pub mod Outcomes
use memaudit.Base.{
  ℕ, Bool, true, false, List, [], ◌∷◌, ◌++◌, Bytes, codes, Option, none, some, Result, ok, err,
  if◌then◌else◌,
}
use memaudit.Config.{DamonConfig}
use memaudit.Damon.Region.{Region, SnapshotError, TriedRegions, snapshot}
use memaudit.Damon.Detect.{Caps, DetectError, detect_at}
use memaudit.Damon.Session.{AddrRange, Config, SysfsWrite, Session, at, start, stop}
use memaudit.Damon.Iomem.{IomemError, parse_iomem}

-- What the host shows: the detection's files, /proc/iomem, and the regions tried so far.
pub record DamonHost : Type 0 where
  pub nr_kdamonds : Bool
  pub osrelease : Result DetectError Bytes
  pub iomem : Option Bytes
  pub tried : TriedRegions

abbrev pub session_config : DamonConfig → List AddrRange → Config
session_config cfg regions = record {
  ops = codes "paddr";
  sample_us = cfg.sample_us;
  aggr_us = cfg.aggr_us;
  update_us = 1000000;
  min_regions = 10;
  max_regions = cfg.max_regions;
  regions = regions;
}

-- `ParseIomem`: a file that cannot be opened is an error.
abbrev pub read_iomem : Option Bytes → Option (List AddrRange)
read_iomem none = none
read_iomem (some text) = elim (parse_iomem text) [ ok regions ↦ some regions | err e ↦ none ]

abbrev pub update_write : Session → SysfsWrite
update_write s = at (s.kdamond ++ (codes "state" ∷ [])) (codes "update_schemes_tried_regions")

module _ (accepts : List SysfsWrite → SysfsWrite → Bool) (tried : TriedRegions) where
  -- `Snapshot` of the new session: a write, then the reading of the directory.
  abbrev pub probed : Session → List SysfsWrite → Result SnapshotError (List Region)
  probed s log = snapshot (record tried { trigger = accepts log (update_write s) })

  -- A session whose probe fails is stopped, and an error of that is ignored.
  abbrev pub keep_probed :
      Session
      → List SysfsWrite
      → Result SnapshotError (List Region)
      → List SysfsWrite × Option Session
  keep_probed s log (ok regions) = (log, some s)
  keep_probed s log (err e) = ((stop accepts s log).0, none)

  abbrev pub probe : List SysfsWrite × Result SysfsWrite Session → List SysfsWrite × Option Session
  probe (log, err w) = (log, none)
  probe (log, ok s) = keep_probed s (log ++ update_write s ∷ []) (probed s log)

  abbrev pub start_on :
      DamonConfig → Option (List AddrRange) → List SysfsWrite → List SysfsWrite × Option Session
  start_on cfg none log = (log, none)
  start_on cfg (some regions) log = probe (start accepts (session_config cfg regions) log)

abbrev pub usable_caps : Result DetectError Caps → Bool
usable_caps (err e) = false
usable_caps (ok caps) = caps.sysfs

-- The writes, and the session of the source if it is registered.
unfoldable pub damon_source :
    (List SysfsWrite → SysfsWrite → Bool)
    → DamonHost
    → DamonConfig
    → List SysfsWrite
    → List SysfsWrite × Option Session
damon_source accepts host cfg log =
    if usable_caps (detect_at host.nr_kdamonds host.osrelease)
    then start_on accepts host.tried cfg (read_iomem host.iomem) log
    else (log, none)
