-- ===== src/Model.antt =====
-- pkg/model/records.go: the payloads that the modelled collectors fill in.
use memaudit.Base.{ℕ, Bool, Bytes, ℤ, negsuc, Option, List}

pub record DamonHist : Type 0 where
  pub monitored_bytes : ℕ
  pub hot_bytes : ℕ
  pub cold_60s : ℕ
  pub cold_300s : ℕ
  pub cold_1h : ℕ
  pub cold_6h : ℕ
  pub cold_24h : ℕ

-- One line of the spool. The time is in nanoseconds, the payload the bytes of the JSON text.
pub record Envelope : Type 0 where
  pub ts : ℕ
  pub site : Bytes
  pub host : Bytes
  pub typ : Bytes
  pub schema : ℕ
  pub payload : Bytes

abbrev pub hugepages_no_numa : ℤ
hugepages_no_numa = negsuc 0

pub record Hugepages : Type 0 where
  pub size_kb : ℕ
  pub node : ℤ
  pub total : ℕ
  pub free : ℕ
  pub rsvd : ℕ
  pub surp : ℕ

-- The counters of a node by the keys of the files that they are read from; 0 where a key is missing.
pub record NumaMem : Type 0 where
  pub node : ℤ
  pub counters : Bytes → ℕ

-- `F` stands for the floating-point numbers.
pub record Psi {ℓ} (F : Type ℓ) : Type ℓ where
  pub some_avg10 : F
  pub some_avg60 : F
  pub some_avg300 : F
  pub some_total : ℕ
  pub full_avg10 : F
  pub full_avg60 : F
  pub full_avg300 : F
  pub full_total : ℕ

-- The fields of memory.stat are addressed by their keys; `none` is a nil pointer or a nil map.
pub record CgroupMem {ℓ} (F : Type ℓ) : Type ℓ where
  pub cgroup : Bytes
  pub current : ℕ
  pub max : Option ℕ
  pub min : Option ℕ
  pub low : Option ℕ
  pub high : Option ℕ
  pub peak : Option ℕ
  pub swap_current : ℕ
  pub psi : Option (Psi F)
  pub stats : Bytes → ℕ
  pub k8s_namespace : Bytes
  pub k8s_pod : Bytes
  pub k8s_container_id : Bytes
  pub k8s_labels : Option (List (Bytes × Bytes))

-- `pid` is a uint32 value.
pub record GpuProcess : Type 0 where
  pub pid : ℕ
  pub used_memory : ℕ

-- The utilizations are uint32 values, the index is not negative.
pub record GpuMem : Type 0 where
  pub index : ℕ
  pub uuid : Bytes
  pub name : Bytes
  pub mem_total : ℕ
  pub mem_used : ℕ
  pub mem_free : ℕ
  pub util_gpu : ℕ
  pub util_memory : ℕ
  pub mig : Bool
  pub processes : List GpuProcess

-- All fields are bytes.
pub record HostMem : Type 0 where
  pub mem_total : ℕ
  pub mem_free : ℕ
  pub mem_available : ℕ
  pub buffers : ℕ
  pub cached : ℕ
  pub swap_cached : ℕ
  pub swap_total : ℕ
  pub swap_free : ℕ
  pub active : ℕ
  pub inactive : ℕ
  pub active_anon : ℕ
  pub inactive_anon : ℕ
  pub active_file : ℕ
  pub inactive_file : ℕ
  pub unevictable : ℕ
  pub dirty : ℕ
  pub writeback : ℕ
  pub anon_pages : ℕ
  pub mapped : ℕ
  pub shmem : ℕ
  pub k_reclaimable : ℕ
  pub slab : ℕ
  pub s_reclaimable : ℕ
  pub s_unreclaim : ℕ
  pub kernel_stack : ℕ
  pub page_tables : ℕ
  pub commit_limit : ℕ
  pub committed_as : ℕ
  pub direct_map_4k : ℕ
  pub direct_map_2m : ℕ
  pub direct_map_1g : ℕ

-- The fields of a scrape by the names that this project gives them.
pub record Vllm {ℓ} (F : Type ℓ) : Type ℓ where
  pub endpoint : Bytes
  pub fields : Bytes → F
