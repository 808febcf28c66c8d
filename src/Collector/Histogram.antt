-- ===== src/Collector/Histogram.antt =====
-- internal/collector/damon.go: `bucketRegions`, the cold-page histogram, in `uint64` arithmetic.
pub mod Exact
use memaudit.Base.{
  ℕ, suc, ◌+◌, ◌-◌, ◌*◌, ◌^◌, ◌%◌, ◌≤◌, ◌<◌, ◌≡◌, refl, List, [], ◌∷◌, Bool, true, false, arith,
  add64, sub64, mul64, ltb, leb, if◌then◌else◌, max_uint64, ◌∙◌, All, Result, ok, ◌>>=◌,
}
use memaudit.Model.{DamonHist}
use memaudit.Damon.Region.{Region, TriedRegions, SnapshotError, snapshot}

abbrev pub cold_60s_us : ℕ
cold_60s_us = 60 * 1000000

abbrev pub cold_300s_us : ℕ
cold_300s_us = 300 * 1000000

abbrev pub cold_1h_us : ℕ
cold_1h_us = 3600 * 1000000

abbrev pub cold_6h_us : ℕ
cold_6h_us = 6 * 3600 * 1000000

abbrev pub cold_24h_us : ℕ
cold_24h_us = 24 * 3600 * 1000000

-- `hist.MonitoredBytes` and the five elements of `cold`, while the loop runs.
pub record Tally : Type 0 where
  pub monitored : ℕ
  pub cold0 : ℕ
  pub cold1 : ℕ
  pub cold2 : ℕ
  pub cold3 : ℕ
  pub cold4 : ℕ

abbrev pub empty_tally : Tally
empty_tally = record { monitored = 0; cold0 = 0; cold1 = 0; cold2 = 0; cold3 = 0; cold4 = 0 }

-- One round of the inner loop over the thresholds.
unfoldable pub age_into : ℕ → ℕ → ℕ → ℕ → ℕ
age_into threshold age_us sz cold = if leb threshold age_us then add64 cold sz else cold

-- One round of the loop over the regions.
unfoldable pub tally_region : ℕ → Tally → Region → Tally
tally_region aggr_us t r =
    let sz = sub64 r.end r.start in
    let seen = record t { monitored = add64 t.monitored sz } in
    let age_us = mul64 r.age aggr_us in
    if ltb 0 r.nr_accesses then seen else record seen {
      cold0 = age_into cold_60s_us age_us sz t.cold0;
      cold1 = age_into cold_300s_us age_us sz t.cold1;
      cold2 = age_into cold_1h_us age_us sz t.cold2;
      cold3 = age_into cold_6h_us age_us sz t.cold3;
      cold4 = age_into cold_24h_us age_us sz t.cold4;
    }

unfoldable pub tally_regions : ℕ → Tally → List Region → Tally
tally_regions aggr_us t [] = t
tally_regions aggr_us t (r ∷ regions) = tally_regions aggr_us (tally_region aggr_us t r) regions

unfoldable pub bucket_regions : List Region → ℕ → DamonHist
unfolding tally_region tally_regions age_into
bucket_regions regions aggr_us =
    let t = tally_regions aggr_us empty_tally regions in
    record {
      monitored_bytes = t.monitored;
      hot_bytes = sub64 t.monitored t.cold0;
      cold_60s = t.cold0;
      cold_300s = t.cold1;
      cold_1h = t.cold2;
      cold_6h = t.cold3;
      cold_24h = t.cold4;
    }

-- `Collect`: a snapshot of the session, in buckets.
unfoldable pub collect_damon : TriedRegions → ℕ → Result SnapshotError DamonHist
collect_damon session aggr_us = snapshot session >>= λ regions. ok (bucket_regions regions aggr_us)
