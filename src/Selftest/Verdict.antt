-- ===== src/Selftest/Verdict.antt =====
-- What the verdict and the exit status say of the host.
use memaudit.Base.{
  ◌≡◌, refl, ap, Bool, true, false, List, [], ◌∷◌, ◌++◌, Bytes, bytes_eq, codes, Result, ok, err,
  map_err, if◌then◌else◌, Bool-cases, inl, inr,
}
use memaudit.Damon.Detect.{Caps, DetectError, no_release, detect_at}
use memaudit.Selftest.{
  Check, Host, Stat, there, not_exist, stat_error, host_mem_check_name, host_mem_check,
  kernel_check, cgroup_v2_check, psi_check, damon_checks, no_audit, notes, available, verdict,
  run_checks, run, failed,
}

-- The details of the checks that failed.
abbrev pub failures : List Check → List Bytes
failures [] = []
failures (c ∷ checks) = let rest = failures checks in if c.ok_ then rest else c.detail ∷ rest

-- Checks of something else than the host's memory.
abbrev IsOther : List Check → Type 0
IsOther [] = Unit
IsOther (c ∷ checks) = (bytes_eq c.name host_mem_check_name ≡ false) × IsOther checks

no_audit-other :
    (checks : List Check) (otherwise : Bytes)
    → IsOther checks
    → no_audit checks otherwise ≡ otherwise
unfolding no_audit
no_audit-other [] otherwise h = refl
no_audit-other (c ∷ checks) otherwise (other, rest) =
    rw other (no_audit-other checks otherwise rest)

notes-other : (checks : List Check) → IsOther checks → notes checks ≡ failures checks
unfolding notes
notes-other [] h = refl
notes-other (c ∷ checks) (other, rest) = elim (Bool-cases c.ok_) [
  | inl fine ↦ rw fine (notes-other checks rest)
  | inr bad ↦ rw (bad, other) (ap (λ (l : List Bytes). c.detail ∷ l) (notes-other checks rest))
]

kernel_check-other :
    (r : Result Bytes Bytes) → bytes_eq (kernel_check r).name host_mem_check_name ≡ false
kernel_check-other (ok b) = refl
kernel_check-other (err e) = refl

cgroup_v2_check-other : (s : Stat) → bytes_eq (cgroup_v2_check s).name host_mem_check_name ≡ false
cgroup_v2_check-other there = refl
cgroup_v2_check-other (not_exist e) = refl
cgroup_v2_check-other (stat_error e) = refl

psi_check-other : (s : Stat) → bytes_eq (psi_check s).name host_mem_check_name ≡ false
psi_check-other there = refl
psi_check-other (not_exist e) = refl
psi_check-other (stat_error e) = refl

damon_checks-IsOther : (e : Bytes) (r : Result DetectError Caps) → IsOther (damon_checks e r)
damon_checks-IsOther e (ok caps) = (refl, (refl, (refl, tt)))
damon_checks-IsOther e (err x) = (refl, (refl, (refl, tt)))

-- The checks of `Run` behind the first.
abbrev pub other_checks : Host → List Check
other_checks h =
    kernel_check h.osrelease
    ∷ cgroup_v2_check h.controllers
    ∷ psi_check h.pressure
    ∷ damon_checks h.detect_error (detect_at h.nr_kdamonds (map_err (λ e. no_release) h.osrelease))

other_checks-IsOther : (h : Host) → IsOther (other_checks h)
other_checks-IsOther h = (
  kernel_check-other h.osrelease,
  (
    cgroup_v2_check-other h.controllers,
    (
      psi_check-other h.pressure,
      damon_checks-IsOther h.detect_error
          (detect_at h.nr_kdamonds (map_err (λ e. no_release) h.osrelease)),
    ),
  ),
)

-- Whether the self test fails, and its verdict, by what `os.Stat` says of /proc/meminfo.
abbrev pub report : Stat → List Check → Bool × Bytes
report there others = (false, available (failures others))
report (not_exist e) others = (true, codes "no useful audit possible: " ++ e)
report (stat_error e) others = (true, codes "no useful audit possible: " ++ e)

report_of :
    (s : Stat) (others : List Check)
    → IsOther others
    → (failed (host_mem_check s ∷ others), verdict (host_mem_check s ∷ others)) ≡ report s others
unfolding failed verdict no_audit notes
report_of there others h =
    rw (no_audit-other others (available (notes others)) h, notes-other others h) refl
report_of (not_exist e) others h = refl
report_of (stat_error e) others h = refl

-- The self test fails exactly if /proc/meminfo is not there to be examined, and then its verdict says so
-- with the error; otherwise the verdict offers the sampling mode, with the details of all other checks
-- that failed, in their order.
pub run-report :
    (h : Host) → (failed (run h).checks, (run h).verdict_) ≡ report h.meminfo (other_checks h)
unfolding run run_checks
run-report h = report_of h.meminfo (other_checks h) (other_checks-IsOther h)
