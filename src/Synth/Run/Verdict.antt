-- ===== src/Synth/Run/Verdict.antt =====
-- What a returned run of memaudit-synth has established.
use memaudit.Base.{
  ℕ, ◌≤◌, ◌<◌, ◌≡◌, ◌⊎◌, inl, inr, refl, List, [], ◌∷◌, Result, ok, err, arith, ltb, Result-cases,
  Bool-cases,
}
use memaudit.Model.{DamonHist}
use memaudit.Synth.Size.{parse_size}
use memaudit.Synth.Band.{band_bounds}
use memaudit.Synth.Run.{
  Flags, Box, Poll, sample, cancelled, Polled, polling, failed, finished, returned, min_duration,
  check_flags, checks, settle, poll_loop, verdict, RunError, measure, run, mapped_run, larger,
}

-- A reading of the loop that came at or after `duration`.
pub data ReadAfter (duration : ℕ) (hist : DamonHist) : List Poll → Type 0 where
  first :
      {now : ℕ} {polls : List Poll}
      → duration ≤ now
      → ReadAfter duration hist (sample now (ok hist) ∷ polls)
  behind :
      {p : Poll} {polls : List Poll}
      → ReadAfter duration hist polls
      → ReadAfter duration hist (p ∷ polls)

poll_loop_finished :
    (duration elapsed : ℕ) (last_hist hist : DamonHist) (polls : List Poll)
    → poll_loop duration elapsed last_hist polls ≡ finished hist
    → ((hist ≡ last_hist) × (duration ≤ elapsed)) ⊎ ReadAfter duration hist polls
unfolding poll_loop
poll_loop_finished duration elapsed last_hist hist [] h = inl (ground arith)
poll_loop_finished duration elapsed last_hist hist (cancelled ∷ polls) h = inl (ground arith)
poll_loop_finished duration elapsed last_hist hist (sample now (err e) ∷ polls) h =
    inl (ground arith)
poll_loop_finished duration elapsed last_hist hist (sample now (ok next) ∷ polls) h =
    elim (Bool-cases (ltb elapsed duration)) [
      | inl more ↦
          elim (poll_loop_finished duration now next hist polls (rw (more, poll_loop) at h)) [
            | inl (same, late) ↦ inr (rw same (first late))
            | inr r ↦ inr (behind r)
          ]
      | inr done ↦ inl (ground arith)
    ]

-- What a passing verdict rests on: flags that are in order, a band computed from what DAMON
-- monitors, and a reading in that band that was taken after the whole duration.
pub record IsPass (flags : Flags) (box : Box) (alloc hot low high : ℕ) (baseline hist : DamonHist)
    : Type 0 where
  pub alloc_given : parse_size flags.alloc ≡ ok alloc
  pub hot_given : parse_size flags.hot ≡ ok hot
  pub hot_pos : 0 < hot
  pub hot_le : hot ≤ alloc
  pub long_enough : min_duration ≤ flags.duration
  pub measured : box.baseline ≡ ok baseline
  pub band : band_bounds alloc hot (larger baseline.monitored_bytes alloc) ≡ ok (low, high)
  pub read : ReadAfter flags.duration hist box.polls
  pub above : low ≤ hist.cold_300s
  pub below : hist.cold_300s ≤ high

check_flags_ok :
    (f : Flags) (a b : ℕ)
    → check_flags f ≡ ok (a, b)
    → (parse_size f.alloc ≡ ok a)
      × (parse_size f.hot ≡ ok b)
      × (0 < b)
      × (b ≤ a)
      × (min_duration ≤ f.duration)
unfolding check_flags
check_flags_ok f a b h = ground arith

checks_ok : (f : Flags) (box : Box) (a b : ℕ) → checks f box ≡ ok (a, b) → check_flags f ≡ ok (a, b)
unfolding checks
checks_ok f box a b h = ground arith

settle_pass :
    (low high : ℕ) (p : Polled)
    → settle low high p ≡ returned (ok tt)
    → (hist : DamonHist) × (p ≡ finished hist) × (low ≤ hist.cold_300s) × (hist.cold_300s ≤ high)
settle_pass low high polling h = absurd (ground arith)
settle_pass low high (failed e) h = absurd (ground arith)
settle_pass low high (finished hist) h =
    (hist, refl, unfold verdict in ground arith, unfold verdict in ground arith)

measure_pass :
    (duration : ℕ) (box : Box) (a b : ℕ)
    → measure duration box a b ≡ returned (ok tt)
    → (baseline : DamonHist) × (low : ℕ) × (high : ℕ) × (box.baseline ≡ ok baseline)
      × (band_bounds a b (larger baseline.monitored_bytes a) ≡ ok (low, high))
      × (settle low high (poll_loop duration 0 baseline box.polls) ≡ returned (ok tt))
measure_pass duration box a b h = elim (Result-cases box.probe) [
  | inr (x, p) ↦ absurd (unfold measure in ground arith)
  | inl (u, p) ↦ elim (Result-cases box.baseline) [
    | inr (x, q) ↦ absurd (unfold measure in ground arith)
    | inl (baseline, q) ↦
        elim (Result-cases (band_bounds a b (larger baseline.monitored_bytes a))) [
          | inr (x, r) ↦ absurd (unfold measure in ground arith)
          | inl ((low, high), r) ↦ (baseline, low, high, q, r, unfold measure in ground arith)
        ]
  ]
]

mapped_run_pass :
    (duration : ℕ) (box : Box) (c : Result RunError (ℕ × ℕ))
    → (mapped_run duration box c).1 ≡ returned (ok tt)
    → (a : ℕ) × (b : ℕ) × (c ≡ ok (a, b)) × (measure duration box a b ≡ returned (ok tt))
mapped_run_pass duration box (err e) h = absurd (ground arith)
mapped_run_pass duration box (ok (a, b)) h = (a, b, refl, ground arith)

-- A run that passes has everything that `IsPass` names.
pub run-IsPass :
    (flags : Flags) (box : Box)
    → (run flags box).1 ≡ returned (ok tt)
    → (alloc : ℕ) × (hot : ℕ) × (low : ℕ) × (high : ℕ) × (baseline : DamonHist) × (hist : DamonHist)
      × IsPass flags box alloc hot low high baseline hist
run-IsPass flags box h =
    let (a, b, checked, passed) =
      mapped_run_pass flags.duration box (checks flags box) (unfold run in h) in
    let (alloc_given, hot_given, hot_pos, hot_le, long_enough) =
      check_flags_ok flags a b (checks_ok flags box a b checked) in
    let (baseline, low, high, measured, band, settled) =
      measure_pass flags.duration box a b passed in
    let (hist, ended, above, below) =
      settle_pass low high (poll_loop flags.duration 0 baseline box.polls) settled in
    (
      a,
      b,
      low,
      high,
      baseline,
      hist,
      record {
        alloc_given = alloc_given;
        hot_given = hot_given;
        hot_pos = hot_pos;
        hot_le = hot_le;
        long_enough = long_enough;
        measured = measured;
        band = band;
        read = late long_enough (poll_loop_finished flags.duration 0 baseline hist box.polls ended);
        above = above;
        below = below;
      },
    )
  where
    late :
        {hist baseline : DamonHist}
        → min_duration ≤ flags.duration
        → ((hist ≡ baseline) × (flags.duration ≤ 0)) ⊎ ReadAfter flags.duration hist box.polls
        → ReadAfter flags.duration hist box.polls
    late long (inl (same, zero_duration)) = absurd (omega arith)
    late long (inr r) = r
