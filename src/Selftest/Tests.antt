-- ===== src/Selftest/Tests.antt =====
-- Tests of internal/selftest, and the theorem at a concrete host.
use memaudit.Base.{◌≡◌, refl, true, [], ◌∷◌, ◌++◌, codes, ok, parse_uint}
use memaudit.Damon.Detect.{detect_at}
use memaudit.Selftest.{
  Host, there, not_exist, run, run_checks, verdict, no_audit, notes, failed, available, em_dash,
}
use memaudit.Selftest.Verdict.{report, other_checks, run-report}

-- A host without PSI, else complete.
abbrev no_psi : Host
no_psi = record {
  meminfo = there;
  osrelease = ok (codes "6.8.0-45-generic\n");
  controllers = there;
  nr_kdamonds = true;
  detect_error = [];
  pressure = not_exist (codes "stat: no such file");
}

run_notes :
    (run no_psi).verdict_
    ≡ available
        ((codes "PSI unavailable " ++ (em_dash ++ codes " stranded estimate not computed")) ∷ [])
unfolding run run_checks verdict no_audit notes detect_at parse_uint
run_notes = refl

run-report_example :
    (failed (run no_psi).checks, (run no_psi).verdict_) ≡ report there (other_checks no_psi)
run-report_example = run-report no_psi
