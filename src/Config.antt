-- ===== src/Config.antt =====
-- internal/config/config.go: the configuration, its defaults, and its loading, with the YAML decoder as
-- an argument that lays a text over a configuration.
use memaudit.Base.{
  ℕ, ◌*◌, Bool, true, false, List, [], ◌∷◌, Bytes, codes, Option, none, some, Result, ok, err, ℤ,
  pos,
}

pub record DebugConfig : Type 0 where
  pub pprof_addr : Bytes

pub record CgroupConfig : Type 0 where
  pub enabled : Bool
  pub globs : List Bytes
  pub max : ℤ

pub record DamonConfig : Type 0 where
  pub enabled : Bool
  pub sample_us : ℕ
  pub aggr_us : ℕ
  pub max_regions : ℕ

-- "auto", "true" or "false".
pub record NvmlConfig : Type 0 where
  pub enabled : Bytes

pub record VllmConfig : Type 0 where
  pub endpoints : List Bytes
  pub metric_map : List (Bytes × Bytes)

pub record CollectorsConfig : Type 0 where
  pub cgroup : CgroupConfig
  pub damon : DamonConfig
  pub nvml : NvmlConfig
  pub vllm : VllmConfig

pub record K8sConfig : Type 0 where
  pub enrich : Bool
  pub kubelet : Bytes
  pub token_path : Bytes
  pub ca_path : Bytes
  pub insecure_skip_verify : Bool
  pub label_keys : List Bytes

pub record SpoolConfig : Type 0 where
  pub dir : Bytes
  pub max_bytes : ℤ

pub record ShipConfig : Type 0 where
  pub mode : Bytes
  pub url : Bytes
  pub token_file : Bytes

pub record LogConfig : Type 0 where
  pub level : Bytes

-- `Config` of this package.
pub record AgentConfig : Type 0 where
  pub site : Bytes
  pub interval_s : ℤ
  pub mode : Bytes
  pub collectors : CollectorsConfig
  pub k8s : K8sConfig
  pub spool : SpoolConfig
  pub ship : ShipConfig
  pub log : LogConfig
  pub debug : DebugConfig

abbrev pub default_collectors : CollectorsConfig
default_collectors = record {
  cgroup = record {
    enabled = true;
    globs = codes "system.slice/*.service" ∷ codes "kubepods.slice/**" ∷ [];
    max = pos 500;
  };
  damon = record { enabled = true; sample_us = 5000; aggr_us = 100000; max_regions = 1000 };
  nvml = record { enabled = codes "auto" };
  vllm = record {
    endpoints = [];
    metric_map =
        (codes "cache_usage", codes "vllm:gpu_cache_usage_perc")
        ∷ (codes "prefix_hits", codes "vllm:gpu_prefix_cache_hits_total")
        ∷ (codes "prefix_queries", codes "vllm:gpu_prefix_cache_queries_total")
        ∷ (codes "preemptions", codes "vllm:num_preemptions_total")
        ∷ (codes "running", codes "vllm:num_requests_running")
        ∷ (codes "waiting", codes "vllm:num_requests_waiting")
        ∷ (codes "prompt_tokens", codes "vllm:prompt_tokens_total")
        ∷ (codes "gen_tokens", codes "vllm:generation_tokens_total")
        ∷ [];
  };
}

-- `Default`.
abbrev pub default_config : AgentConfig
default_config = record {
  site = [];
  interval_s = pos 15;
  mode = codes "sampling";
  collectors = default_collectors;
  k8s = record {
    enrich = false;
    kubelet = codes "https://127.0.0.1:10250";
    token_path = [];
    ca_path = [];
    insecure_skip_verify = false;
    label_keys = codes "app" ∷ [];
  };
  spool = record {
    dir = codes "/var/lib/memaudit/spool";
    max_bytes = pos (2 * 1024 * 1024 * 1024);
  };
  ship = record { mode = codes "push"; url = []; token_file = [] };
  log = record { level = codes "info" };
  debug = record { pprof_addr = [] };
}

pub data ConfigError : Type 0 where
  config_unreadable config_malformed : ConfigError

abbrev pub decoded_config : Option AgentConfig → Result ConfigError AgentConfig
decoded_config none = err config_malformed
decoded_config (some cfg) = ok cfg

-- `Load`, from what reading the file gives.
unfoldable pub load :
    (Bytes → AgentConfig → Option AgentConfig) → Option Bytes → Result ConfigError AgentConfig
load unmarshal none = err config_unreadable
load unmarshal (some text) = decoded_config (unmarshal text default_config)
