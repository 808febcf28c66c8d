-- ===== src/Synth/Band.antt =====
-- cmd/memaudit-synth/band.go and preflight.go: the expected band, and the box that a run needs.
-- Byte counts are `uint64` values, with the wrap-around of Go's `+`, `-` and `*` written out.
use memaudit.Base.{
  ℕ, ◌+◌, ◌-◌, ◌*◌, ◌/◌, ◌^◌, ◌≤◌, ◌<◌, ◌≡◌, ◌↔◌, arith, Result, ok, err, add64, sub64, mul64,
  max_uint64, ltb, if◌then◌else◌,
}

abbrev pub gib_bytes : ℕ
gib_bytes = 1024 * 1024 * 1024

abbrev pub band_low_slack_bytes : ℕ
band_low_slack_bytes = 1 * gib_bytes

abbrev pub band_high_slack_bytes : ℕ
band_high_slack_bytes = 1 * gib_bytes / 2

pub data BandError : Type 0 where
  hot_exceeds_alloc total_below_alloc : BandError

unfoldable pub band_bounds : ℕ → ℕ → ℕ → Result BandError (ℕ × ℕ)
band_bounds alloc_bytes hot_bytes total_bytes =
    if ltb alloc_bytes hot_bytes
    then err hot_exceeds_alloc
    else if ltb total_bytes alloc_bytes
    then err total_below_alloc
    else let cold = sub64 alloc_bytes hot_bytes in
      let ambient = sub64 total_bytes alloc_bytes in
      let low = if ltb band_low_slack_bytes cold then sub64 cold band_low_slack_bytes else 0 in
      let high = add64 (add64 cold ambient) band_high_slack_bytes in ok (low, high)

-- On a box whose RAM is half a GiB below 2^64 or less, the band of a run is: from the cold part of
-- the allocation less 1 GiB (0 where that is negative), to all RAM but the hot part plus half a GiB.
-- Nothing wraps around, and the band is not empty.
pub band_bounds_exact :
    (alloc hot total : ℕ)
    → hot ≤ alloc
    → alloc ≤ total
    → total + band_high_slack_bytes ≤ max_uint64
    → (band_bounds alloc hot total
        ≡ ok (alloc - hot - band_low_slack_bytes, total - hot + band_high_slack_bytes))
      × (alloc - hot - band_low_slack_bytes ≤ total - hot + band_high_slack_bytes)
unfolding band_bounds
band_bounds_exact alloc hot total h a t = ground arith

abbrev pub min_headroom_bytes : ℕ
min_headroom_bytes = 1 * gib_bytes

abbrev pub max_ambient_ratio : ℕ
max_ambient_ratio = 1

pub data PreflightError : Type 0 where
  headroom ambient_noise : PreflightError

unfoldable pub check_preflight : ℕ → ℕ → Result PreflightError (Unit {0})
check_preflight total_bytes alloc_bytes =
    if ltb total_bytes (add64 alloc_bytes min_headroom_bytes)
    then err headroom
    else if ltb (mul64 max_ambient_ratio alloc_bytes) (sub64 total_bytes alloc_bytes)
    then err ambient_noise
    else ok tt

-- For an allocation that fits an `int`, the box passes exactly if it has 1 GiB beside the
-- allocation and at most as much RAM outside the allocation as in it.
pub check_preflight_iff :
    (total alloc : ℕ)
    → total ≤ max_uint64
    → alloc < 2 ^ 63
    → (check_preflight total alloc ≡ ok tt)
      ↔ ((alloc + min_headroom_bytes ≤ total) × (total ≤ alloc + alloc))
unfolding check_preflight
check_preflight_iff total alloc t a = (λ h. ground arith, λ h. ground arith)

-- Without that bound the headroom test wraps around: a box with no room passes.
pub check_preflight_wraps :
    (total alloc : ℕ)
    → total ≤ max_uint64
    → alloc ≤ total
    → max_uint64 < alloc + min_headroom_bytes
    → check_preflight total alloc ≡ ok tt
unfolding check_preflight
check_preflight_wraps total alloc t a w = ground arith
