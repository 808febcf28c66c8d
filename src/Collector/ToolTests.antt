-- ===== src/Collector/ToolTests.antt =====
-- Tests of the collectors that read what a tool, an endpoint or a library gives.
use memaudit.Base.{
  ℕ, ◌≡◌, refl, true, false, [], ◌∷◌, Option, none, some, Bytes, codes, ok, parse_uint, find,
  bytes_eq, if◌then◌else◌,
}
use memaudit.Model.{GpuProcess}
use memaudit.Collector.Gpu.{GpuError, collect_gpu, csv_uint32}
use memaudit.Collector.Stat.{scan_lines}
use memaudit.Collector.Meminfo.{parse_k_reclaimable_bytes}
use memaudit.Collector.Vllm.{Metric, ScrapeResponse, collect_vllm}

abbrev gpus_printed : Bytes
gpus_printed =
    codes
      "0, GPU-a, A100, 81920, 1024, 80896, 7, [N/A], Disabled\n1, GPU-b, A100, 81920, 0, 81920, 0, 0, Enabled\n"

abbrev apps_printed : Bytes
apps_printed = codes "GPU-b, 10, 5\nGPU-a, 11, 6\nGPU-b, 12, [N/A]\n"

abbrev process : ℕ → ℕ → GpuProcess
process pid used = record { pid = pid; used_memory = used }

gpus_collected :
    collect_gpu true (some gpus_printed) (some apps_printed)
    ≡ ok (
        record {
          index = 0;
          uuid = codes "GPU-a";
          name = codes "A100";
          mem_total = 81920;
          mem_used = 1024;
          mem_free = 80896;
          util_gpu = 7;
          util_memory = 0;
          mig = false;
          processes = process 11 6 ∷ [];
        }
        ∷ record {
          index = 1;
          uuid = codes "GPU-b";
          name = codes "A100";
          mem_total = 81920;
          mem_used = 0;
          mem_free = 81920;
          util_gpu = 0;
          util_memory = 0;
          mig = true;
          processes = process 10 5 ∷ process 12 0 ∷ [];
        }
        ∷ [])
unfolding collect_gpu csv_uint32 memaudit.Collector.Gpu.csv_uint memaudit.Collector.Gpu.csv_int
    memaudit.Collector.Gpu.not_blank memaudit.Collector.Gpu.parse_gpu_query_csv
    memaudit.Collector.Gpu.parse_devices memaudit.Collector.Gpu.parse_compute_apps_csv
    memaudit.Collector.Gpu.parse_processes parse_uint find
gpus_collected = refl

-- A number of 33 bits is no process.
too_large : csv_uint32 (codes "4294967296") ≡ 0
unfolding csv_uint32 memaudit.Collector.Gpu.csv_uint parse_uint
too_large = refl

k_reclaimable_read :
    parse_k_reclaimable_bytes
      (scan_lines (codes "MemTotal: 8 kB\nKReclaimable: 3 kB\nKReclaimable: x kB\n"))
    ≡ ok 3072
unfolding parse_k_reclaimable_bytes parse_uint
k_reclaimable_read = refl

-- Numbers stand for the floating-point numbers. One metric is there, the second endpoint is not.
abbrev get : Bytes → Option (Option (ScrapeResponse ℕ))
get url =
    if bytes_eq url (codes "a/metrics")
    then some (
        some (record {
          status = 200;
          families = some (
              (
                codes "vllm:running",
                record { gauge = none; counter = some 4; untyped = some 5 } ∷ [],
              )
              ∷ []);
        }))
    else some none

scrapes :
    (collect_vllm 0 get
      ((codes "running", codes "vllm:running") ∷ (codes "waiting", codes "vllm:waiting") ∷ [])
      (codes "a" ∷ codes "b" ∷ codes "a" ∷ [])
      []).1
    ≡ codes "vllm:waiting" ∷ []
unfolding collect_vllm memaudit.Collector.Vllm.scrape_metrics memaudit.Collector.Vllm.build_record
    memaudit.Collector.Vllm.fill_fields memaudit.Collector.Vllm.warn_unmatched_once
    memaudit.Collector.Vllm.metric_value find
scrapes = refl
