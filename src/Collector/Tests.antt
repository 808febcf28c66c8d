-- ===== src/Collector/Tests.antt =====
-- Tests of internal/collector, and the theorems at concrete inputs.
use memaudit.Base.{
  ◌-◌, ◌≡◌, refl, List, [], ◌∷◌, arith, Bool, true, Bytes, bytes_eq, codes, some, ok, parse_uint,
  ◌||◌,
}
use memaudit.Model.{DamonHist}
use memaudit.Damon.Region.{Region}
use memaudit.Collector.Cgroup.{
  Elements, Entries, end, file, folder, match_glob, is_possible_prefix, matches_any,
  is_possible_prefix_for_any, select, walk, collect, unified, new_cgroup,
}
use memaudit.Collector.Stat.{scan_lines, Stats, set_stat, no_stats, scan_kv, apply_stat}
use memaudit.Collector.Stat.Last.{Holds, scan_kv-Holds}
use memaudit.Collector.Vmstat.{parse_vmstat, apply_vmstat}
use memaudit.Collector.Vmstat.Last.{parse_vmstat-Holds}
use memaudit.Collector.Histogram.{
  bucket_regions, cold_60s_us, cold_300s_us, cold_1h_us, cold_6h_us, cold_24h_us,
}
use memaudit.Collector.Histogram.Exact.{idle_bytes, total_bytes, bucket_regions-exact}

-- One region idle for a minute and more, one accessed; the aggregation takes 100 ms.
abbrev idle_and_hot : List Region
idle_and_hot =
    record { start = 4096; end = 8192; nr_accesses = 0; age = 700 }
    ∷ record { start = 8192; end = 16384; nr_accesses = 3; age = 700 }
    ∷ []

bucket_regions_counts : bucket_regions idle_and_hot 100000 ≡ record {
  monitored_bytes = 12288;
  hot_bytes = 8192;
  cold_60s = 4096;
  cold_300s = 0;
  cold_1h = 0;
  cold_6h = 0;
  cold_24h = 0;
}
unfolding bucket_regions
bucket_regions_counts = refl

bucket_regions-exact_example : bucket_regions idle_and_hot 100000 ≡ record {
  monitored_bytes = total_bytes idle_and_hot;
  hot_bytes = total_bytes idle_and_hot - idle_bytes 100000 cold_60s_us idle_and_hot;
  cold_60s = idle_bytes 100000 cold_60s_us idle_and_hot;
  cold_300s = idle_bytes 100000 cold_300s_us idle_and_hot;
  cold_1h = idle_bytes 100000 cold_1h_us idle_and_hot;
  cold_6h = idle_bytes 100000 cold_6h_us idle_and_hot;
  cold_24h = idle_bytes 100000 cold_24h_us idle_and_hot;
}
bucket_regions-exact_example = bucket_regions-exact idle_and_hot 100000 (omega arith) (
  record { ordered = omega arith; end_fits = omega arith; age_fits = omega arith },
  (record { ordered = omega arith; end_fits = omega arith; age_fits = omega arith }, tt),
)

abbrev hist : DamonHist
hist = bucket_regions idle_and_hot 100000

-- A segment pattern is a literal or a star.
abbrev literal_or_star : Bytes → Bytes → Bool
literal_or_star p s = bytes_eq p (codes "*") || bytes_eq p s

-- system.slice with two services, beside user.slice with one session.
abbrev two_slices : Entries
two_slices =
    folder (codes "system.slice") true
      (folder (codes "a.service") true end
        (file (codes "cgroup.procs") (folder (codes "b.service") true end end)))
      (folder (codes "user.slice") true (folder (codes "s.scope") true end end) end)

abbrev services : List Elements
services = new_cgroup (codes "system.slice/*" ∷ codes "user.slice" ∷ [])

collect_caps :
    collect literal_or_star services 2 (λ (p : Elements). ok p) unified true two_slices
    ≡ ok (
        (codes "system.slice" ∷ codes "a.service" ∷ [])
        ∷ (codes "system.slice" ∷ codes "b.service" ∷ [])
        ∷ [])
unfolding collect walk select matches_any match_glob is_possible_prefix_for_any is_possible_prefix
collect_caps = refl

-- The key stands in two lines.
abbrev stat_lines : List (List Bytes)
stat_lines = scan_lines (codes "anon 1\nfoo 2\nfile 7\nanon 3\n")

abbrev read_stats : Stats
read_stats =
    set_stat (codes "anon") 3 (set_stat (codes "file") 7 (set_stat (codes "anon") 1 no_stats))

scan_kv_reads : scan_kv stat_lines no_stats ≡ ok read_stats
unfolding scan_kv apply_stat parse_uint
scan_kv_reads = refl

scan_kv-Holds_example : Holds 0 (some (codes "3")) (read_stats (codes "anon"))
scan_kv-Holds_example =
    scan_kv-Holds (codes "anon") stat_lines no_stats read_stats refl scan_kv_reads

vmstat_reads :
    parse_vmstat (scan_lines (codes "pswpin 4\npswpin 5 6\nnr_dirty x\n")) no_stats
    ≡ ok (set_stat (codes "pswpin") 4 no_stats)
unfolding parse_vmstat apply_vmstat parse_uint
vmstat_reads = refl

parse_vmstat-Holds_example :
    Holds 0 (some (codes "4")) (set_stat (codes "pswpin") 4 no_stats (codes "pswpin"))
parse_vmstat-Holds_example =
    parse_vmstat-Holds (codes "pswpin") (scan_lines (codes "pswpin 4\npswpin 5 6\nnr_dirty x\n"))
      no_stats (set_stat (codes "pswpin") 4 no_stats) refl vmstat_reads
