-- ===== src/Synth/Run.antt =====
-- cmd/memaudit-synth/main.go: `run`, from the flags to the verdict, with its deferred clean-up.
-- What the kernel and the other packages answer is the argument `Box`; the writes to standard output
-- and the page touching are left out.
pub mod Verdict
use memaudit.Base.{
  ℕ, ◌-◌, ◌*◌, ◌^◌, ◌/◌, Bool, true, false, not, ◌||◌, List, [], ◌∷◌, ◌++◌, Bytes, Result, ok, err,
  map_err, ◌>>=◌, ◌>>◌, ltb, ◌==◌, if◌then◌else◌,
}
use memaudit.Model.{DamonHist}
use memaudit.Synth.Size.{SizeError, parse_size}
use memaudit.Synth.Band.{BandError, PreflightError, band_bounds, check_preflight}

-- Durations are in nanoseconds.
abbrev pub second : ℕ
second = 1000000000

abbrev pub min_duration : ℕ
min_duration = 6 * 60 * second

-- A call that failed outside this program.
pub data Failure : Type 0 where
  failure : Failure

pub data RunError : Type 0 where
  too_short zero_hot hot_exceeds_alloc alloc_too_large hot_too_large : RunError
  bad_alloc bad_hot : SizeError → RunError
  meminfo_failed detect_failed no_damon state_failed already_running mmap_failed : RunError
  iomem_failed start_failed probe_failed baseline_failed collect_failed : RunError
  preflight_failed : PreflightError → RunError
  band_failed : BandError → RunError
  interrupted out_of_band : RunError

-- What a round of the polling loop meets: the cancelled context, or the elapsed time and a reading.
pub data Poll : Type 0 where
  cancelled : Poll
  sample : ℕ → Result Failure DamonHist → Poll

pub record Flags : Type 0 where
  pub alloc : Bytes
  pub hot : Bytes
  pub duration : ℕ
  pub force : Bool

pub record Box : Type 0 where
  pub mem_total : Result Failure ℕ
  pub damon_sysfs : Result Failure Bool
  pub kdamond_running : Result Failure Bool
  pub mmap : Result Failure (Unit {0})
  pub iomem : Result Failure (Unit {0})
  pub start : Result Failure (Unit {0})
  pub probe : Result Failure (Unit {0})
  pub baseline : Result Failure DamonHist
  pub polls : List Poll

-- The calls of `run` that take or give back something.
pub data Effect : Type 0 where
  mapped touching session_on session_off touching_stopped unmapped : Effect

pub data Polled : Type 0 where
  polling : Polled
  failed : RunError → Polled
  finished : DamonHist → Polled

-- The run is still in its loop, or has returned.
pub data Ending : Type 0 where
  in_loop : Ending
  returned : Result RunError (Unit {0}) → Ending

abbrev pub lift {ℓ} : {A : Type ℓ} → RunError → Result Failure A → Result RunError A
lift e = map_err (λ _. e)

abbrev pub require : Bool → RunError → Result RunError (Unit {0})
require true e = ok tt
require false e = err e

-- The flags: sizes that parse, in order, and that fit an `int`.
unfoldable pub check_flags : Flags → Result RunError (ℕ × ℕ)
check_flags f = do
  require (not (ltb f.duration min_duration)) too_short
  alloc_bytes ← map_err bad_alloc (parse_size f.alloc)
  hot_bytes ← map_err bad_hot (parse_size f.hot)
  require (not (hot_bytes == 0)) zero_hot
  require (not (ltb alloc_bytes hot_bytes)) RunError.hot_exceeds_alloc
  require (not (ltb (2 ^ 63 - 1) alloc_bytes)) alloc_too_large
  require (not (ltb (2 ^ 63 - 1) hot_bytes)) hot_too_large
  ok (alloc_bytes, hot_bytes)

-- `--force` continues past a failed preflight and past a kdamond that is on.
abbrev pub unless_forced {ℓ} :
    {E : Type ℓ} → Bool → (E → RunError) → Result E (Unit {0}) → Result RunError (Unit {0})
unless_forced force wrap (ok u) = ok tt
unless_forced force wrap (err e) = require force (wrap e)

unfoldable pub check_box : Bool → Box → ℕ → Result RunError (Unit {0})
check_box force box alloc_bytes = do
  total ← lift meminfo_failed box.mem_total
  unless_forced force preflight_failed (check_preflight total alloc_bytes)
  sysfs ← lift detect_failed box.damon_sysfs
  require sysfs no_damon
  running ← lift state_failed box.kdamond_running
  require (not running || force) already_running

-- duration/20, between one second and thirty.
unfoldable pub poll_interval : ℕ → ℕ
poll_interval duration =
    if ltb (30 * second) (duration / 20)
    then 30 * second
    else if ltb (duration / 20) second
    then second
    else duration / 20

-- The polling loop. It reads the clock after each wait, and the list ends where the run still waits.
unfoldable pub poll_loop : ℕ → ℕ → DamonHist → List Poll → Polled
poll_loop duration elapsed last_hist [] =
    if ltb elapsed duration then polling else finished last_hist
poll_loop duration elapsed last_hist (cancelled ∷ polls) =
    if ltb elapsed duration then failed interrupted else finished last_hist
poll_loop duration elapsed last_hist (sample now (err e) ∷ polls) =
    if ltb elapsed duration then failed collect_failed else finished last_hist
poll_loop duration elapsed last_hist (sample now (ok hist) ∷ polls) =
    let next = poll_loop duration now hist polls in
    if ltb elapsed duration then next else finished last_hist

unfoldable pub verdict : ℕ → ℕ → DamonHist → Result RunError (Unit {0})
verdict low high hist =
    if ltb hist.cold_300s low || ltb high hist.cold_300s then err out_of_band else ok tt

abbrev pub larger : ℕ → ℕ → ℕ
larger a b = if ltb a b then b else a

abbrev pub settle : ℕ → ℕ → Polled → Ending
settle low high polling = in_loop
settle low high (failed e) = returned (err e)
settle low high (finished hist) = returned (verdict low high hist)

abbrev pub ending : Result RunError Ending → Ending
ending (ok e) = e
ending (err e) = returned (err e)

-- From the probe to the verdict, with the session on.
unfoldable pub measure : ℕ → Box → ℕ → ℕ → Ending
measure duration box alloc_bytes hot_bytes = ending do
  lift probe_failed box.probe
  baseline ← lift baseline_failed box.baseline
  (low, high) ←
      map_err band_failed
        (band_bounds alloc_bytes hot_bytes (larger baseline.monitored_bytes alloc_bytes))
  ok (settle low high (poll_loop duration 0 baseline box.polls))

-- The deferred calls, which run once the function returns.
abbrev pub deferred : List Effect → Ending → List Effect
deferred effects in_loop = []
deferred effects (returned r) = effects

abbrev pub with_session : ℕ → Box → ℕ → ℕ → List Effect × Ending
with_session duration box alloc_bytes hot_bytes =
    let e = measure duration box alloc_bytes hot_bytes in
    (session_on ∷ deferred (session_off ∷ []) e, e)

abbrev pub with_mapping : List Effect × Ending → List Effect × Ending
with_mapping (effects, e) =
    (mapped ∷ touching ∷ (effects ++ deferred (touching_stopped ∷ unmapped ∷ []) e), e)

abbrev pub started : ℕ → Box → ℕ → ℕ → Result RunError (Unit {0}) → List Effect × Ending
started duration box alloc_bytes hot_bytes (err e) = ([], returned (err e))
started duration box alloc_bytes hot_bytes (ok u) = with_session duration box alloc_bytes hot_bytes

abbrev pub mapped_run : ℕ → Box → Result RunError (ℕ × ℕ) → List Effect × Ending
mapped_run duration box (err e) = ([], returned (err e))
mapped_run duration box (ok (alloc_bytes, hot_bytes)) = with_mapping (
    started duration box alloc_bytes hot_bytes
      (do lift iomem_failed box.iomem; lift start_failed box.start))

unfoldable pub checks : Flags → Box → Result RunError (ℕ × ℕ)
checks flags box = do
  (alloc_bytes, hot_bytes) ← check_flags flags
  check_box flags.force box alloc_bytes
  lift mmap_failed box.mmap
  ok (alloc_bytes, hot_bytes)

unfoldable pub run : Flags → Box → List Effect × Ending
unfolding checks check_flags check_box measure poll_loop verdict
run flags box = mapped_run flags.duration box (checks flags box)
