-- ===== src/Agent/Tests.antt =====
-- Tests of internal/agent, and the theorems at concrete inputs.
use memaudit.Base.{
  ℕ, ◌==◌, if◌then◌else◌, ◌≡◌, ◌↔◌, refl, Bool, true, false, not, List, [], ◌∷◌, Bytes, bytes_eq,
  codes, Option, none, some, ok, err, ℤ, format_uint, length,
}
use memaudit.Config.{DamonConfig, CollectorsConfig, default_collectors}
use memaudit.Model.{Envelope}
use memaudit.Spool.Disk.{Segment}
use memaudit.Spool.State.{Spool, all_bytes}
use memaudit.Spool.Cap.{done, Round, Encoders}
use memaudit.Spool.Ops.{RotateCalls, WriteCalls}
use memaudit.Ship.{Shipper, new, Attempt, status, Pass}
use memaudit.Ship as Ship
use memaudit.Damon.Session.{SysfsWrite}
use memaudit.Agent.Sources.{
  many, source_of, tier_fast, build_sources, collect, envelope, envelopes, marshal_failed, Source,
}
use memaudit.Agent.Sources.Envelopes.{records_of, Wraps, collect_iff}
use memaudit.Agent.DamonSource.{DamonHost, damon_source}
use memaudit.Agent.DamonSource.Outcomes.{Outcome, damon_source-Outcome}
use memaudit.Agent.Loop.{
  Agent, collect_tick, write_head, Step, collects, writes, Reach, here, next, started,
}
use memaudit.Agent.Loop.Order.{IsOrderly, Reach-IsOrderly}
use memaudit.Agent.Shutdown.{run_agent, bad_interval}

-- A record is a number, its JSON text the numeral; 13 cannot be marshalled.
abbrev numeral : ℕ → Option Bytes
numeral n = if n == 13 then none else some (format_uint n)

abbrev psi : Source
psi = source_of (codes "psi") tier_fast

-- Two records, the envelopes of one tick.
abbrev two_envelopes : List Envelope
two_envelopes =
    envelope numeral (codes "lab") (codes "h1") (codes "psi") 170 (codes "7")
    ∷ envelope numeral (codes "lab") (codes "h1") (codes "psi") 170 (codes "8")
    ∷ []

collect_iff_example :
    (collect numeral (codes "lab") (codes "h1") psi 170 (many (ok (7 ∷ 8 ∷ []))) ≡ ok two_envelopes)
    ↔ ((recs : List ℕ) × (records_of numeral (codes "lab") (codes "h1") (many (ok (7 ∷ 8 ∷ [])))
          ≡ ok recs)
        × Wraps numeral (codes "lab") (codes "h1") psi.typ 170 recs two_envelopes)
collect_iff_example =
    collect_iff numeral (codes "lab") (codes "h1") psi 170 (many (ok (7 ∷ 8 ∷ []))) two_envelopes

-- The tick hands them on; with a record that cannot be marshalled it fails.
ticks :
    (collect numeral (codes "lab") (codes "h1") psi 170 (many (ok (7 ∷ 8 ∷ []))) ≡ ok two_envelopes)
    × (collect numeral (codes "lab") (codes "h1") psi 170 (many (ok (7 ∷ 13 ∷ [])))
        ≡ err marshal_failed)
unfolding collect envelopes format_uint
ticks = (refl, refl)

abbrev all_collectors : CollectorsConfig
all_collectors = record default_collectors {
  vllm = record default_collectors.vllm { endpoints = codes "http://localhost:8000/metrics" ∷ [] };
}

nine_sources :
    (length (build_sources all_collectors true) ≡ 9)
    × (length (build_sources all_collectors false) ≡ 8)
unfolding build_sources
nine_sources = (refl, refl)

-- One range of memory, and a kernel whose regions are not there yet.
abbrev new_host : DamonHost
new_host = record {
  nr_kdamonds = true;
  osrelease = ok (codes "6.8.0-31-generic\n");
  iomem = some (codes "1000-1fff : System RAM\n");
  tried = record { trigger = true; entries = some []; file = λ dir name. none };
}

abbrev damon_config : DamonConfig
damon_config = record { enabled = true; sample_us = 5000; aggr_us = 100000; max_regions = 1000 }

-- A kernel that has no tried regions to update.
abbrev refuses_update : List SysfsWrite → SysfsWrite → Bool
refuses_update log w = not (bytes_eq w.value (codes "update_schemes_tried_regions"))

damon_source-Outcome_example :
    Outcome refuses_update new_host damon_config []
      (damon_source refuses_update new_host damon_config [])
damon_source-Outcome_example = damon_source-Outcome refuses_update new_host damon_config []

-- A frame of one byte stands for the compression, the type of an envelope for its encoding.
abbrev frame : Bytes → Bytes
frame b = 40 ∷ b

abbrev unframe : Bytes → Bytes
unframe [] = []
unframe (c ∷ b) = b

abbrev encode : Envelope → Bytes
encode e = e.typ

abbrev encoders : Encoders
encoders = record { marshal = λ e. some (encode e); warning_payload = λ name. name }

abbrev segment_a : Segment
segment_a = record { name = codes "a.jsonl.zst"; content = frame (codes "first") }

abbrev one_segment : Spool
one_segment = record {
  rotate_bytes = 8;
  rotate_age = 60;
  max_bytes = 100;
  site = codes "lab";
  host = codes "h1";
  handle_open = true;
  active_size = 3;
  active_start = 100;
  disk = record { active = codes "abc"; segments = segment_a ∷ []; tmps = [] };
}

abbrev quiet_round : Round
quiet_round = record {
  list_ok = true;
  stat = λ name. done;
  removal = done;
  warning = all_bytes;
  now = 170;
}

abbrev smooth_calls : RotateCalls
smooth_calls = record {
  sync_ok = true;
  close_ok = true;
  read_ok = true;
  ulid = codes "c";
  create_ok = true;
  compress_ok = true;
  partial = [];
  segment_sync_ok = true;
  rename_ok = true;
  reopen_ok = true;
  now = 170;
  rounds = quiet_round ∷ quiet_round ∷ quiet_round ∷ [];
}

abbrev answer_ok : Attempt
answer_ok = record {
  read_ok = true;
  request_ok = true;
  response = status 200;
  remove_ok = true;
  sleep_ok = true;
}

abbrev good_pass : Pass
good_pass = record { list_ok = true; attempts = λ name. answer_ok ∷ [] }

abbrev shipper : Shipper
shipper = new (ℤ.pos 3) (ℤ.pos 10)

-- A negative interval.
no_interval :
    run_agent frame encoders (ℤ.pos 0) (some one_segment) (λ s. s) none smooth_calls true []
    ≡ (some one_segment, err bad_interval)
unfolding run_agent
no_interval = refl

abbrev note : Envelope
note = record {
  ts = 170;
  site = codes "lab";
  host = codes "h1";
  typ = codes "n";
  schema = 1;
  payload = [];
}

abbrev calls : WriteCalls frame encoders
calls = record { now = 110; aged = smooth_calls; line = all_bytes; full = smooth_calls }

-- Sources 1 and 2 collect, and source 2 writes first.
abbrev both_collected : Agent
both_collected =
    collect_tick 2 (ok (note ∷ [])) (collect_tick 1 (ok (note ∷ [])) (started one_segment shipper))

both_collected-Reach : Reach frame encoders (started one_segment shipper) both_collected
unfolding collect_tick
both_collected-Reach =
    next (next here (collects 1 (ok (note ∷ [])) refl)) (collects 2 (ok (note ∷ [])) refl)

two_writes :
    Step frame encoders both_collected (write_head frame encoders 2 calls note [] both_collected)
unfolding collect_tick
two_writes = writes 2 calls note [] refl

Reach-IsOrderly_example : IsOrderly (write_head frame encoders 2 calls note [] both_collected)
Reach-IsOrderly_example =
    Reach-IsOrderly frame encoders one_segment shipper (next both_collected-Reach two_writes)
