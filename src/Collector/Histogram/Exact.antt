-- ===== src/Collector/Histogram/Exact.antt =====
-- The histogram against sums over unbounded numbers.
use memaudit.Base.{
  ℕ, ◌+◌, ◌-◌, ◌*◌, ◌≤◌, ◌≡◌, List, [], ◌∷◌, false, arith, sub64, mul64, ltb, leb, if◌then◌else◌,
  max_uint64, ◌∙◌, All, Bool-cases, inl, inr,
}
use memaudit.Damon.Region.{Region}
use memaudit.Collector.Histogram.{
  Tally, empty_tally, age_into, tally_region, tally_regions, bucket_regions, cold_60s_us,
  cold_300s_us, cold_1h_us, cold_6h_us, cold_24h_us,
}

-- The specification, over unbounded numbers: the bytes of a region, all bytes, and the bytes of the
-- regions with no access that have not been touched for `threshold` microseconds.
abbrev pub size : Region → ℕ
size r = r.end - r.start

abbrev pub total_bytes : List Region → ℕ
total_bytes [] = 0
total_bytes (r ∷ regions) = size r + total_bytes regions

unfoldable pub idle_part : ℕ → ℕ → Region → ℕ
idle_part aggr_us threshold r =
    if ltb 0 r.nr_accesses then 0 else if leb threshold (r.age * aggr_us) then size r else 0

abbrev pub idle_bytes : ℕ → ℕ → List Region → ℕ
idle_bytes aggr_us threshold [] = 0
idle_bytes aggr_us threshold (r ∷ regions) =
    idle_part aggr_us threshold r + idle_bytes aggr_us threshold regions

-- A region as the kernel reports it, whose idle time in microseconds fits 64 bits.
pub record IsSound (aggr_us : ℕ) (r : Region) : Type 0 where
  pub ordered : r.start ≤ r.end
  pub end_fits : r.end ≤ max_uint64
  pub age_fits : r.age * aggr_us ≤ max_uint64

idle_part-le : (aggr_us threshold : ℕ) (r : Region) → idle_part aggr_us threshold r ≤ size r
unfolding idle_part
idle_part-le aggr_us threshold r = ground arith

pub idle_bytes-le :
    (aggr_us threshold : ℕ) (regions : List Region)
    → idle_bytes aggr_us threshold regions ≤ total_bytes regions
idle_bytes-le aggr_us threshold [] = omega arith
idle_bytes-le aggr_us threshold (r ∷ regions) =
    omega (arith, idle_part-le aggr_us threshold r, idle_bytes-le aggr_us threshold regions)

-- A bucket after one region, where it does not overflow.
age_into-exact :
    (threshold aggr_us cold : ℕ) (r : Region)
    → ltb 0 r.nr_accesses ≡ false
    → cold + size r ≤ max_uint64
    → IsSound aggr_us r
    → age_into threshold (mul64 r.age aggr_us) (sub64 r.end r.start) cold
      ≡ cold + idle_part aggr_us threshold r
unfolding age_into idle_part
age_into-exact threshold aggr_us cold r idle room sound = ground arith

-- The sums so far, with room for what is to come.
record HasRoom (t : Tally) (more : ℕ) : Type 0 where
  room : t.monitored + more ≤ max_uint64
  part0 : t.cold0 ≤ t.monitored
  part1 : t.cold1 ≤ t.monitored
  part2 : t.cold2 ≤ t.monitored
  part3 : t.cold3 ≤ t.monitored
  part4 : t.cold4 ≤ t.monitored

-- What a list of regions adds to a tally.
abbrev with_regions : ℕ → Tally → List Region → Tally
with_regions aggr_us t regions = record {
  monitored = t.monitored + total_bytes regions;
  cold0 = t.cold0 + idle_bytes aggr_us cold_60s_us regions;
  cold1 = t.cold1 + idle_bytes aggr_us cold_300s_us regions;
  cold2 = t.cold2 + idle_bytes aggr_us cold_1h_us regions;
  cold3 = t.cold3 + idle_bytes aggr_us cold_6h_us regions;
  cold4 = t.cold4 + idle_bytes aggr_us cold_24h_us regions;
}

abbrev with_region : ℕ → Tally → Region → Tally
with_region aggr_us t r = record {
  monitored = t.monitored + size r;
  cold0 = t.cold0 + idle_part aggr_us cold_60s_us r;
  cold1 = t.cold1 + idle_part aggr_us cold_300s_us r;
  cold2 = t.cold2 + idle_part aggr_us cold_1h_us r;
  cold3 = t.cold3 + idle_part aggr_us cold_6h_us r;
  cold4 = t.cold4 + idle_part aggr_us cold_24h_us r;
}

tally_region-exact :
    (aggr_us more : ℕ) (t : Tally) (r : Region)
    → HasRoom t (size r + more)
    → IsSound aggr_us r
    → tally_region aggr_us t r ≡ with_region aggr_us t r
tally_region-exact aggr_us more t r h sound = elim (Bool-cases (ltb 0 r.nr_accesses)) [
  | inl touched ↦ unfold tally_region idle_part in ground arith
  | inr idle ↦
      unfold tally_region in
      ground (
        arith,
        age_into-exact cold_60s_us aggr_us t.cold0 r,
        age_into-exact cold_300s_us aggr_us t.cold1 r,
        age_into-exact cold_1h_us aggr_us t.cold2 r,
        age_into-exact cold_6h_us aggr_us t.cold3 r,
        age_into-exact cold_24h_us aggr_us t.cold4 r,
      )
]

with_region-HasRoom :
    (aggr_us more : ℕ) (t : Tally) (r : Region)
    → HasRoom t (size r + more)
    → HasRoom (with_region aggr_us t r) more
with_region-HasRoom aggr_us more t r h = omega (
  arith,
  idle_part-le aggr_us cold_60s_us r,
  idle_part-le aggr_us cold_300s_us r,
  idle_part-le aggr_us cold_1h_us r,
  idle_part-le aggr_us cold_6h_us r,
  idle_part-le aggr_us cold_24h_us r,
)

tally_regions-exact :
    (aggr_us : ℕ) (t : Tally) (regions : List Region)
    → HasRoom t (total_bytes regions)
    → All (IsSound aggr_us) regions
    → tally_regions aggr_us t regions ≡ with_regions aggr_us t regions
unfolding tally_regions
tally_regions-exact aggr_us t [] h sound = ground arith
tally_regions-exact aggr_us t (r ∷ regions) h (sound_r, sound) =
    rw (tally_region-exact aggr_us (total_bytes regions) t r h sound_r) (
      tally_regions-exact aggr_us (with_region aggr_us t r) regions
        (with_region-HasRoom aggr_us (total_bytes regions) t r h) sound
      ∙ ground arith)

-- Where the sizes add up within 64 bits, each cold bucket is the bytes of the regions that were not
-- accessed and have been idle that long, the monitored bytes are the bytes of all regions, and the
-- hot bytes are the rest.
pub bucket_regions-exact :
    (regions : List Region) (aggr_us : ℕ)
    → total_bytes regions ≤ max_uint64
    → All (IsSound aggr_us) regions
    → bucket_regions regions aggr_us ≡ record {
      monitored_bytes = total_bytes regions;
      hot_bytes = total_bytes regions - idle_bytes aggr_us cold_60s_us regions;
      cold_60s = idle_bytes aggr_us cold_60s_us regions;
      cold_300s = idle_bytes aggr_us cold_300s_us regions;
      cold_1h = idle_bytes aggr_us cold_1h_us regions;
      cold_6h = idle_bytes aggr_us cold_6h_us regions;
      cold_24h = idle_bytes aggr_us cold_24h_us regions;
    }
bucket_regions-exact regions aggr_us fits sound =
    let exact = tally_regions-exact aggr_us empty_tally regions (omega arith) sound in
    unfold bucket_regions in (rw exact (ground (arith, idle_bytes-le aggr_us cold_60s_us regions)))
