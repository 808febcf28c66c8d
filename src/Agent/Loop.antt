-- ===== src/Agent/Loop.antt =====
-- internal/agent/agent.go: the goroutines of `Run`, as steps in any order. A source is a number; its
-- goroutine waits, collects, and writes what it has collected under the lock, one envelope for each
-- step. The shipper's goroutine lists the segments, and then tries to ship the listed ones, one attempt
-- for each step; the sources' goroutines may write between two attempts, also for one segment.
pub mod Order
use memaudit.Base.{
  ℕ, ◌≡◌, ◌==◌, Bool, true, false, List, [], ◌∷◌, ◌++◌, Bytes, Result, ok, err, if◌then◌else◌,
}
use memaudit.Model.{Envelope}
use memaudit.Spool.Disk.{Segment, Disk}
use memaudit.Spool.State.{Spool}
use memaudit.Spool.Cap.{Encoders, with_segments}
use memaudit.Spool.Ops.{WriteCalls, write}
use memaudit.Ship.{
  Shipper, Attempt, Report, shipped, final, retry, ship, next_backoff, reset_backoff,
}
use memaudit.Ship as Ship
use memaudit.Agent.Sources.{SourceError}

-- Where the goroutine of a source stands: in its `select`, in the loop over the envelopes, or returned.
pub data Phase : Type 0 where
  waiting : Phase
  writing : List Envelope → Phase
  returned : Phase

-- `collected` and `attempted` are what the collectors handed on and what was passed to `Write`, so far;
-- `listed` has the names that the shipper has listed and is not done with yet, `closed` the sources whose
-- `close` was called.
pub record Agent : Type 0 where
  pub phase : ℕ → Phase
  pub cancelled : Bool
  pub spool : Spool
  pub shipper : Shipper
  pub listed : List Bytes
  pub collected : ℕ → List Envelope
  pub attempted : List (ℕ × Envelope)
  pub closed : List ℕ

abbrev pub update {ℓ} : {A : Type ℓ} → ℕ → A → (ℕ → A) → ℕ → A
update i x f j = if i == j then x else f j

-- `collect` of a tick: an error is logged and the tick is over.
unfoldable pub collect_tick : ℕ → Result SourceError (List Envelope) → Agent → Agent
collect_tick i (ok envs) a = record a {
  phase = update i (writing envs) a.phase;
  collected = update i (a.collected i ++ envs) a.collected;
}
collect_tick i (err e) a = a

module _ (compress : Bytes → Bytes) (enc : Encoders) where
  -- One round of the loop over the envelopes: an error of `Write` is logged.
  unfoldable pub write_head : ℕ → WriteCalls compress enc → Envelope → List Envelope → Agent → Agent
  write_head i calls e rest a = record a {
    phase = update i (writing rest) a.phase;
    spool = (write compress enc calls e a.spool).0;
    attempted = a.attempted ++ (i, e) ∷ [];
  }

  -- `Run` of the shipper has shipped all that it listed, and lists again. With none to ship it returns,
  -- and so it does where the listing fails; the goroutine calls it again at its next tick.
  unfoldable pub list_segments : Bool → Agent → Agent
  list_segments list_ok a = record a {
    listed = if list_ok then Ship.names a.spool.disk.segments else [];
  }

  -- What follows an attempt by its report: with the next listed name, or with the same one after a wait;
  -- where the wait is cancelled, the listed names are left.
  abbrev pub after_attempt : Report → Bool → Bytes → List Bytes → Shipper → Shipper × List Bytes
  after_attempt shipped sleep_ok name rest s = (reset_backoff s, rest)
  after_attempt (final e) sleep_ok name rest s = (reset_backoff s, rest)
  after_attempt retry true name rest s = (next_backoff s, name ∷ rest)
  after_attempt retry false name rest s = (s, [])

  -- One round of the retry loop for the first of the listed names; an error of the shipper is logged.
  unfoldable pub ship_next : Attempt → Bytes → List Bytes → Agent → Agent
  ship_next attempt name rest a =
      let tried = ship attempt name a.spool.disk.segments in
      let (shipper, listed) = after_attempt tried.report attempt.sleep_ok name rest a.shipper in
      record a { spool = with_segments a.spool tried.segments; shipper = shipper; listed = listed }

  -- The goroutine returns, and `runSourceAndClose` calls `close` if the source has one.
  unfoldable pub return_source : ℕ → Bool → Agent → Agent
  return_source i closes a = record a {
    phase = update i returned a.phase;
    closed = if closes then i ∷ a.closed else a.closed;
  }

  pub data Step (a : Agent) : Agent → Type 0 where
    collects :
        (i : ℕ) (r : Result SourceError (List Envelope))
        → a.phase i ≡ waiting
        → Step a (collect_tick i r a)
    writes :
        (i : ℕ) (calls : WriteCalls compress enc) (e : Envelope) (rest : List Envelope)
        → a.phase i ≡ writing (e ∷ rest)
        → Step a (write_head i calls e rest a)
    ends_tick :
        (i : ℕ) → a.phase i ≡ writing [] → Step a (record a { phase = update i waiting a.phase })
    cancels : Step a (record a { cancelled = true })
    lists : (list_ok : Bool) → a.listed ≡ [] → Step a (list_segments list_ok a)
    ships :
        (attempt : Attempt) (name : Bytes) (rest : List Bytes)
        → a.listed ≡ name ∷ rest
        → Step a (ship_next attempt name rest a)
    returns :
        (i : ℕ) (closes : Bool)
        → a.phase i ≡ waiting
        → a.cancelled ≡ true
        → Step a (return_source i closes a)

  pub data Reach (a : Agent) : Agent → Type 0 where
    here : Reach a a
    next : {b c : Agent} → Reach a b → Step b c → Reach a c

-- An agent whose goroutines have just been started.
abbrev pub started : Spool → Shipper → Agent
started s shipper = record {
  phase = λ i. waiting;
  cancelled = false;
  spool = s;
  shipper = shipper;
  listed = [];
  collected = λ i. [];
  attempted = [];
  closed = [];
}
