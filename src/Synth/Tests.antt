-- ===== src/Synth/Tests.antt =====
-- Tests of memaudit-synth, and the theorems at concrete inputs.
use memaudit.Base.{
  ℕ, ◌+◌, ◌*◌, ◌-◌, ◌≤◌, ◌↔◌, ◌≡◌, refl, [], ◌∷◌, true, false, ok, err, codes, Bytes, arith,
  parse_uint, NumError,
}
use memaudit.Model.{DamonHist}
use memaudit.Synth.Size.{
  SizeUnit, IsSize, parse_size, parse_size_exact, overflows, bad_number, no_suffix,
}
use memaudit.Synth.Band.{
  band_bounds, band_bounds_exact, gib_bytes, band_low_slack_bytes, band_high_slack_bytes,
  check_preflight, check_preflight_iff, min_headroom_bytes,
}
use memaudit.Synth.Run.{Flags, Box, sample, returned, run, second, min_duration}
use memaudit.Synth.Run.Verdict.{IsPass, run-IsPass}

parse_size_reads : parse_size (codes "8GiB") ≡ ok (8 * gib_bytes)
unfolding parse_size parse_uint
parse_size_reads = refl

parse_size_refuses :
    (parse_size (codes "16777216TiB") ≡ err overflows)
    × (parse_size (codes "8GB") ≡ err no_suffix)
    × (parse_size (codes "-8GiB") ≡ err (bad_number NumError.syntax))
unfolding parse_size parse_uint
parse_size_refuses = (refl, refl, refl)

parse_size_exact_example :
    (parse_size (codes "8GiB") ≡ ok (8 * gib_bytes))
    ↔ ((unit : SizeUnit) × (num : Bytes) × IsSize unit num (codes "8GiB") (8 * gib_bytes))
parse_size_exact_example = parse_size_exact (codes "8GiB") (8 * gib_bytes)

band_bounds_exact_example :
    (band_bounds (8 * gib_bytes) (2 * gib_bytes) (16 * gib_bytes)
      ≡ ok (
        8 * gib_bytes - 2 * gib_bytes - band_low_slack_bytes,
        16 * gib_bytes - 2 * gib_bytes + band_high_slack_bytes,
      ))
    × (8 * gib_bytes - 2 * gib_bytes - band_low_slack_bytes
        ≤ 16 * gib_bytes - 2 * gib_bytes + band_high_slack_bytes)
band_bounds_exact_example =
    band_bounds_exact (8 * gib_bytes) (2 * gib_bytes) (16 * gib_bytes) (omega arith) (omega arith)
      (omega arith)

check_preflight_iff_example : (check_preflight (16 * gib_bytes) (8 * gib_bytes) ≡ ok tt) ↔ (
    (8 * gib_bytes + min_headroom_bytes ≤ 16 * gib_bytes)
    × (16 * gib_bytes ≤ 8 * gib_bytes + 8 * gib_bytes))
check_preflight_iff_example =
    check_preflight_iff (16 * gib_bytes) (8 * gib_bytes) (omega arith) (omega arith)

abbrev flags : Flags
flags = record { alloc = codes "8GiB"; hot = codes "2GiB"; duration = min_duration; force = false }

abbrev reading : ℕ → DamonHist
reading cold = record {
  monitored_bytes = 10 * gib_bytes;
  hot_bytes = 2 * gib_bytes;
  cold_60s = cold;
  cold_300s = cold;
  cold_1h = 0;
  cold_6h = 0;
  cold_24h = 0;
}

abbrev box : Box
box = record {
  mem_total = ok (10 * gib_bytes);
  damon_sysfs = ok true;
  kdamond_running = ok false;
  mmap = ok tt;
  iomem = ok tt;
  start = ok tt;
  probe = ok tt;
  baseline = ok (reading 0);
  polls =
      sample (30 * second) (ok (reading 0))
      ∷ sample (370 * second) (ok (reading (6 * gib_bytes)))
      ∷ [];
}

run_passes : (run flags box).1 ≡ returned (ok tt)
unfolding run parse_size parse_uint band_bounds check_preflight
run_passes = refl

run-IsPass_example :
    (alloc : ℕ) × (hot : ℕ) × (low : ℕ) × (high : ℕ) × (baseline : DamonHist) × (hist : DamonHist)
    × IsPass flags box alloc hot low high baseline hist
run-IsPass_example = run-IsPass flags box run_passes
