-- ===== src/Selftest.antt =====
-- internal/selftest/selftest.go: the capability matrix and its verdict. A `Host` holds what the checks
-- find, with the texts of the errors.
pub mod Verdict
pub mod Tests
use memaudit.Base.{
  ℕ, zero, suc, ◌+◌, ◌-◌, Bool, true, false, not, ◌&&◌, List, [], ◌∷◌, ◌++◌, Bytes, bytes_eq, codes,
  trim_space, length, Result, ok, err, map_err, if◌then◌else◌,
}
use memaudit.Damon.Detect.{Caps, DetectError, no_release, detect_at}

pub record Check : Type 0 where
  pub name : Bytes
  pub ok_ : Bool
  pub detail : Bytes

pub record Matrix : Type 0 where
  pub checks : List Check
  pub verdict_ : Bytes

-- `os.Stat` of a path: it is there, it does not exist, or another error.
pub data Stat : Type 0 where
  there : Stat
  not_exist : Bytes → Stat
  stat_error : Bytes → Stat

pub record Host : Type 0 where
  pub meminfo : Stat
  pub osrelease : Result Bytes Bytes
  pub controllers : Stat
  pub nr_kdamonds : Bool
  pub detect_error : Bytes
  pub pressure : Stat

abbrev pub em_dash : Bytes
em_dash = 226 ∷ 128 ∷ 148 ∷ []

abbrev pub passed : Bytes → Check
passed name = record { name = name; ok_ = true; detail = [] }

abbrev pub failed_with : Bytes → Bytes → Check
failed_with name detail = record { name = name; ok_ = false; detail = detail }

abbrev pub host_mem_check_name : Bytes
host_mem_check_name = codes "host memory (/proc/meminfo)"

abbrev pub host_mem_check : Stat → Check
host_mem_check there = passed host_mem_check_name
host_mem_check (not_exist e) = failed_with host_mem_check_name e
host_mem_check (stat_error e) = failed_with host_mem_check_name e

abbrev pub kernel_check : Result Bytes Bytes → Check
kernel_check (err e) = failed_with (codes "kernel") e
kernel_check (ok b) = passed (codes "kernel " ++ trim_space b)

abbrev pub cgroup_v2_check : Stat → Check
cgroup_v2_check there = passed (codes "cgroup v2 unified")
cgroup_v2_check (not_exist e) =
    failed_with (codes "cgroup v2 unified")
      (codes "cgroup v1 host " ++ (em_dash ++ codes " host-level cgroup metrics only"))
cgroup_v2_check (stat_error e) = failed_with (codes "cgroup v2 unified") e

abbrev pub psi_check : Stat → Check
psi_check there = passed (codes "PSI")
psi_check (not_exist e) =
    failed_with (codes "PSI")
      (codes "PSI unavailable " ++ (em_dash ++ codes " stranded estimate not computed"))
psi_check (stat_error e) = failed_with (codes "PSI") e

abbrev pub damon_absent_detail : Bool → Bytes
damon_absent_detail true = []
damon_absent_detail false =
    codes "DAMON unavailable " ++ (em_dash ++ codes " cold-page estimate not computed")

abbrev pub tried_regions_detail : Bool → Bytes
tried_regions_detail true = []
tried_regions_detail false =
    codes
      "kernel version suggests no full histogram mode; this check relies on the version string alone and can miss backported support (seen on RHEL-family kernels) "
    ++ (em_dash ++ codes " the agent confirms real availability at startup")

abbrev pub check_of : Bytes → Bool → Bytes → Check
check_of name b detail = record { name = name; ok_ = b; detail = detail }

abbrev pub damon_checks : Bytes → Result DetectError Caps → List Check
damon_checks e (err x) =
    failed_with (codes "DAMON sysfs") e
    ∷ failed_with (codes "DAMON paddr") e
    ∷ failed_with (codes "DAMON tried_regions (>=6.2)") e
    ∷ []
damon_checks e (ok caps) =
    check_of (codes "DAMON sysfs") caps.sysfs (damon_absent_detail caps.sysfs)
    ∷ check_of (codes "DAMON paddr") caps.paddr (damon_absent_detail caps.paddr)
    ∷ check_of (codes "DAMON tried_regions (>=6.2)") caps.tried_regions
        (tried_regions_detail caps.tried_regions)
    ∷ []

-- The first loop of `verdict`: the first failed check of the host's memory.
abbrev pub or_verdict : Bool → Bytes → Bytes → Bytes
or_verdict true detail rest = codes "no useful audit possible: " ++ detail
or_verdict false detail rest = rest

unfoldable pub no_audit : List Check → Bytes → Bytes
no_audit [] otherwise = otherwise
no_audit (c ∷ checks) otherwise =
    or_verdict (bytes_eq c.name host_mem_check_name && not c.ok_) c.detail
      (no_audit checks otherwise)

unfoldable pub notes : List Check → List Bytes
notes [] = []
notes (c ∷ checks) =
    let rest = notes checks in
    if not c.ok_ && not (bytes_eq c.name host_mem_check_name) then c.detail ∷ rest else rest

-- strings.Join
abbrev pub join : Bytes → List Bytes → Bytes
join sep [] = []
join sep (s ∷ []) = s
join sep (s ∷ t ∷ texts) = s ++ (sep ++ join sep (t ∷ texts))

abbrev pub available : List Bytes → Bytes
available [] = codes "sampling mode available"
available (n ∷ ns) = codes "sampling mode available (" ++ (join (codes "; ") (n ∷ ns) ++ codes ")")

unfoldable pub verdict : List Check → Bytes
verdict checks = no_audit checks (available (notes checks))

unfoldable pub run_checks : Host → List Check
run_checks h =
    host_mem_check h.meminfo
    ∷ kernel_check h.osrelease
    ∷ cgroup_v2_check h.controllers
    ∷ psi_check h.pressure
    ∷ damon_checks h.detect_error (detect_at h.nr_kdamonds (map_err (λ e. no_release) h.osrelease))

-- `Run`
unfoldable pub run : Host → Matrix
run h = record { checks = run_checks h; verdict_ = verdict (run_checks h) }

-- `Failed`: the first check of the host's memory decides.
unfoldable pub failed : List Check → Bool
failed [] = false
failed (c ∷ checks) =
    let rest = failed checks in if bytes_eq c.name host_mem_check_name then not c.ok_ else rest

abbrev pub repeat_dot : ℕ → Bytes
repeat_dot zero = []
repeat_dot (suc n) = b'.' ∷ repeat_dot n

abbrev pub padding : ℕ → ℕ
padding zero = 1
padding (suc n) = suc n

abbrev pub status_of : Check → Bytes
status_of c =
    if c.ok_
    then codes "OK"
    else if bytes_eq c.detail []
    then codes "FAIL"
    else codes "FAIL: " ++ c.detail

-- `String`, a line for each check, in 40 columns, and the verdict.
unfoldable pub render_checks : List Check → Bytes → Bytes
render_checks [] last = last
render_checks (c ∷ checks) last =
    c.name
    ++ (32
        ∷ (repeat_dot (padding (40 - length c.name - 1))
            ++ (32 ∷ (status_of c ++ (10 ∷ render_checks checks last)))))

unfoldable pub to_string : Matrix → Bytes
to_string m = render_checks m.checks (codes "verdict: " ++ (m.verdict_ ++ 10 ∷ []))
