-- ===== src/Memauditd.antt =====
-- cmd/memauditd/main.go: the choice of the subcommand, and `runCmd` from the configuration to the exit
-- status. Flag parsing and log lines are left out, and so is what `vllm-dump` and `selftest` print.
pub mod Start
pub mod Exit
pub mod Tests
use memaudit.Base.{
  ℕ, zero, suc, ◌+◌, ◌-◌, ◌*◌, ◌^◌, ◌%◌, Bool, true, false, List, [], ◌∷◌, Option, none, some,
  Bytes, bytes_eq, codes, trim_space, Result, ok, err, map_err, ◌>>=◌, ltb, ℤ, pos, negsuc,
  if◌then◌else◌,
}
use memaudit.Config.{AgentConfig, ConfigError, load}
use memaudit.Spool.Disk.{Disk}
use memaudit.Spool.State.{Spool, SpoolError}
use memaudit.Spool.Cap.{Encoders}
use memaudit.Spool.Ops.{Options, OpenCalls, open_spool, RotateCalls}
use memaudit.Ship.{Shipper, Pass}
use memaudit.Ship as Ship
use memaudit.K8s.Kubelet.{
  KubeletClientConfig, KubeletClient, TransportError, Verification, new_kubelet_client,
}
use memaudit.Pprof.{listen}
use memaudit.Agent.Shutdown.{
  RunError, drain_incomplete, bad_interval, no_spool, close_failed, run_agent,
}

pub data Subcommand : Type 0 where
  run_sub selftest_sub vllm_dump_sub version_sub : Subcommand
  unknown : Bytes → Subcommand

abbrev pub named : Bytes → Subcommand
named sub =
    if bytes_eq sub (codes "run")
    then run_sub
    else if bytes_eq sub (codes "selftest")
    then selftest_sub
    else if bytes_eq sub (codes "vllm-dump")
    then vllm_dump_sub
    else if bytes_eq sub (codes "version")
    then version_sub
    else unknown sub

abbrev pub starts_with_dash : Bytes → Bool
starts_with_dash [] = false
starts_with_dash (c ∷ s) = bytes_eq (c ∷ []) (codes "-")

-- The first argument names the subcommand unless it is a flag.
unfoldable pub subcommand : List Bytes → Subcommand × List Bytes
subcommand [] = (run_sub, [])
subcommand (arg ∷ args) = if starts_with_dash arg then (run_sub, arg ∷ args) else (named arg, args)

-- `readToken`: no path is no token.
unfoldable pub read_token : (Bytes → Option Bytes) → Bytes → Option Bytes
read_token read_file path =
    let content = read_file path in
    if bytes_eq path []
    then some []
    else elim content [ none ↦ none | some b ↦ some (trim_space b) ]

-- What a start meets: the files by their paths, the host's name, the decoders, and the spool's directory
-- with the answers to its opening.
pub record StartCalls : Type 0 where
  pub unmarshal : Bytes → AgentConfig → Option AgentConfig
  pub read_file : Bytes → Option Bytes
  pub has_certificates : Bytes → Bool
  pub hostname : Option Bytes
  pub spool_calls : OpenCalls
  pub disk : Disk
  pub listen_ok : Bool

pub data StartError : Type 0 where
  bad_config : ConfigError → StartError
  no_hostname no_ship_url no_ship_token no_k8s_token no_listener : StartError
  no_spool_dir : SpoolError → StartError
  no_kubelet : TransportError → StartError

-- The shipper with where it sends, and what `agent.Run` is called with.
pub record PushTarget : Type 0 where
  pub url : Bytes
  pub token : Bytes
  pub shipper : Shipper

pub record StartedAgent : Type 0 where
  pub config : AgentConfig
  pub host : Bytes
  pub spool : Spool
  pub target : Option PushTarget
  pub kubelet : Option (KubeletClient × Verification)

abbrev pub spool_options : AgentConfig → Bytes → Options
spool_options cfg host = record {
  rotate_bytes = pos 0;
  rotate_age = pos 0;
  max_bytes = cfg.spool.max_bytes;
  site = cfg.site;
  host = host;
}

abbrev pub or_error {ℓ κ} : {E : Type ℓ} {A : Type κ} → E → Option A → Result E A
or_error e none = err e
or_error e (some a) = ok a

abbrev pub target_of : Bytes → Bytes → PushTarget
target_of url token = record { url = url; token = token; shipper = Ship.new (pos 0) (pos 0) }

module _ (calls : StartCalls) where
  unfoldable pub push_target : AgentConfig → Result StartError (Option PushTarget)
  push_target cfg =
      let target =
        or_error no_ship_token (read_token calls.read_file cfg.ship.token_file) >>= λ token.
        ok (some (target_of cfg.ship.url token)) in
      if bytes_eq cfg.ship.mode (codes "push")
      then if bytes_eq cfg.ship.url [] then err no_ship_url else target
      else ok none

  abbrev pub client_config : AgentConfig → Bytes → KubeletClientConfig
  client_config cfg token = record {
    base_url = cfg.k8s.kubelet;
    token = token;
    ca_path = cfg.k8s.ca_path;
    insecure_skip_verify = cfg.k8s.insecure_skip_verify;
    label_keys = cfg.k8s.label_keys;
    cache_ttl = pos 0;
  }

  unfoldable pub kubelet_of :
      AgentConfig → Result StartError (Option (KubeletClient × Verification))
  kubelet_of cfg =
      let client =
        or_error no_k8s_token (read_token calls.read_file cfg.k8s.token_path) >>= λ token.
        (map_err no_kubelet (
            new_kubelet_client calls.has_certificates (client_config cfg token)
              (calls.read_file cfg.k8s.ca_path))
          >>= λ c. ok (some c)) in
      if cfg.k8s.enrich then client else ok none

  -- The debug endpoint is bound, if one is asked for.
  unfoldable pub bound : AgentConfig → Result StartError (Unit {0})
  bound cfg =
      let addr = cfg.debug.pprof_addr in
      if bytes_eq addr []
      then ok tt
      else if listen calls.listen_ok addr
      then ok tt
      else err no_listener

  abbrev pub wired : AgentConfig → Bytes → Spool → Result StartError StartedAgent
  wired cfg host spool = do
    target ← push_target cfg
    kubelet ← kubelet_of cfg
    u ← bound cfg
    ok (record { config = cfg; host = host; spool = spool; target = target; kubelet = kubelet })

  abbrev pub wired_on :
      AgentConfig → Bytes → Disk × Result SpoolError Spool → Disk × Result StartError StartedAgent
  wired_on cfg host (d, err e) = (d, err (no_spool_dir e))
  wired_on cfg host (d, ok spool) = (d, wired cfg host spool)

  abbrev pub on_host : AgentConfig → Option Bytes → Disk × Result StartError StartedAgent
  on_host cfg none = (calls.disk, err no_hostname)
  on_host cfg (some host) =
      wired_on cfg host (open_spool (spool_options cfg host) calls.spool_calls calls.disk)

  abbrev pub configured : Result ConfigError AgentConfig → Disk × Result StartError StartedAgent
  configured (err e) = (calls.disk, err (bad_config e))
  configured (ok cfg) = on_host cfg calls.hostname

  -- `runCmd` up to the call of `agent.Run`, with the directory that it leaves.
  unfoldable pub start_up : Bytes → Disk × Result StartError StartedAgent
  start_up cfg_path = configured (load calls.unmarshal (calls.read_file cfg_path))

-- Two's complement.
abbrev pub int64 : ℕ → ℤ
int64 n = if ltb n (2 ^ 63) then pos n else negsuc (2 ^ 64 - 1 - n)

-- `time.Duration(cfg.IntervalS) * time.Second`, which wraps around.
abbrev pub interval_of : ℤ → ℤ
interval_of (pos n) = int64 ((n * 1000000000) % 2 ^ 64)
interval_of (negsuc n) = int64 ((2 ^ 64 - ((n + 1) * 1000000000) % 2 ^ 64) % 2 ^ 64)

-- The exit status by what `agent.Run` returns: a final drain that is not complete is a clean stop.
abbrev pub exit_of : Result RunError (Unit {0}) → ℕ
exit_of (ok u) = 0
exit_of (err (drain_incomplete e)) = 0
exit_of (err bad_interval) = 1
exit_of (err no_spool) = 1
exit_of (err (close_failed e)) = 1

abbrev pub shipper_of : Option PushTarget → Option Shipper
shipper_of none = none
shipper_of (some t) = some t.shipper

-- What the run of the agent meets: its goroutines, the last rotation and the final drain.
pub record RunCalls : Type 0 where
  pub goroutines : Spool → Spool
  pub last : RotateCalls
  pub close_ok : Bool
  pub passes : List Pass

abbrev pub status_after : Option Spool × Result RunError (Unit {0}) → Option Spool × ℕ
status_after (s, r) = (s, exit_of r)

module _ (compress : Bytes → Bytes) (enc : Encoders) (run : RunCalls) where
  abbrev pub run_started : Disk × Result StartError StartedAgent → Option Spool × ℕ
  run_started (d, err e) = (none, 1)
  run_started (d, ok a) = status_after (
      run_agent compress enc (interval_of a.config.interval_s) (some a.spool) run.goroutines
        (shipper_of a.target) run.last run.close_ok run.passes)

  -- `runCmd`: the spool that it leaves, if it got one, and the exit status.
  unfoldable pub run_cmd : StartCalls → Bytes → Option Spool × ℕ
  run_cmd calls cfg_path = run_started (start_up calls cfg_path)
