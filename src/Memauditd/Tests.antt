-- ===== src/Memauditd/Tests.antt =====
-- Tests of cmd/memauditd, and the theorem on its exit status at a concrete input.
use memaudit.Base.{◌≡◌, refl, true, [], ◌∷◌, Option, some, Bytes, codes, err, pos, negsuc}
use memaudit.Config.{AgentConfig, default_config}
use memaudit.Spool.Disk.{Disk}
use memaudit.Spool.Cap.{Encoders}
use memaudit.Spool.Ops.{OpenCalls, RotateCalls}
use memaudit.Ship.{Attempt, status, Pass}
use memaudit.Memauditd.{
  StartCalls, StartError, no_ship_url, start_up, subcommand, vllm_dump_sub, run_sub, interval_of,
  RunCalls, run_cmd,
}
use memaudit.Memauditd.Exit.{Exits, run_cmd-Exits}

abbrev empty_disk : Disk
empty_disk = record { active = []; segments = []; tmps = [] }

-- The file's text is the URL of the endpoint.
abbrev with_url : Bytes → AgentConfig → Option AgentConfig
with_url text cfg = some (record cfg { ship = record cfg.ship { url = text } })

abbrev calls_with : Bytes → StartCalls
calls_with text = record {
  unmarshal = with_url;
  read_file = λ path. some text;
  has_certificates = λ pem. true;
  hostname = some (codes "h1");
  spool_calls = record {
    mkdir_ok = true;
    glob_ok = true;
    removals_ok = [];
    open_ok = true;
    stat_ok = true;
    now = 100;
    mtime = 100;
  };
  disk = empty_disk;
  listen_ok = true;
}

-- The default mode is to push, and the default URL is empty.
refuses_without_url : (start_up (calls_with []) (codes "config.yaml")).1 ≡ err no_ship_url
unfolding start_up memaudit.Config.load memaudit.Spool.Ops.open_spool memaudit.Spool.Ops.remove_tmps
    memaudit.Memauditd.push_target
refuses_without_url = refl

subcommands :
    (subcommand (codes "vllm-dump" ∷ codes "x" ∷ []) ≡ (vllm_dump_sub, codes "x" ∷ []))
    × (subcommand (codes "--config" ∷ []) ≡ (run_sub, codes "--config" ∷ []))
unfolding subcommand
subcommands = (refl, refl)

intervals : (interval_of (pos 15) ≡ pos 15000000000) × (interval_of (negsuc 0) ≡ negsuc 999999999)
intervals = (refl, refl)

abbrev encoders : Encoders
encoders = record { marshal = λ e. some e.typ; warning_payload = λ name. name }

abbrev last_calls : RotateCalls
last_calls = record {
  sync_ok = true;
  close_ok = true;
  read_ok = true;
  ulid = codes "c";
  create_ok = true;
  compress_ok = true;
  partial = [];
  segment_sync_ok = true;
  rename_ok = true;
  reopen_ok = true;
  now = 170;
  rounds = [];
}

-- The endpoint is not reached before the timeout.
abbrev run_calls : RunCalls
run_calls = record { goroutines = λ s. s; last = last_calls; close_ok = true; passes = [] }

clean_stop :
    (run_cmd (λ b. b) encoders run_calls (calls_with (codes "https://x")) (codes "config.yaml")).1
    ≡ 0
unfolding run_cmd start_up memaudit.Config.load memaudit.Spool.Ops.open_spool
    memaudit.Spool.Ops.remove_tmps memaudit.Memauditd.push_target memaudit.Memauditd.read_token
    memaudit.Memauditd.kubelet_of memaudit.Memauditd.bound memaudit.Agent.Shutdown.run_agent
    memaudit.Agent.Shutdown.finish memaudit.Spool.Ops.close memaudit.Spool.Ops.guard_call
    memaudit.Ship.run
clean_stop = refl

run_cmd-Exits_example :
    Exits
      (λ b. b)
      encoders
      run_calls
      (calls_with (codes "https://x"))
      (codes "config.yaml")
      (run_cmd (λ b. b) encoders run_calls (calls_with (codes "https://x")) (codes "config.yaml"))
run_cmd-Exits_example =
    run_cmd-Exits (λ b. b) encoders run_calls (calls_with (codes "https://x")) (codes "config.yaml")
