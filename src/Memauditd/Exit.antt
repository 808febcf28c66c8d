-- ===== src/Memauditd/Exit.antt =====
-- What an exit status of `runCmd` means.
use memaudit.Base.{
  ℕ, zero, suc, ◌≡◌, refl, sym, ap, subst, List, [], Option, none, some, Bytes, Result, ok, err, ℤ,
  pos, negsuc,
}
use memaudit.Spool.Disk.{Disk}
use memaudit.Spool.State.{Spool, SpoolError, Outcome}
use memaudit.Spool.Cap.{Encoders, with_segments}
use memaudit.Spool.Ops.{close}
use memaudit.Ship as Ship
use memaudit.Ship.{Shipper, Shipping, End, Pass, Event}
use memaudit.Ship.Trace.{IsAccounted, nothing, run-IsAccounted}
use memaudit.Agent.Shutdown.{bad_interval, drained, after_close, check_interval, finish, run_agent}
use memaudit.Memauditd.{
  StartCalls, StartError, PushTarget, StartedAgent, start_up, interval_of, exit_of, shipper_of,
  RunCalls, status_after, run_started, run_cmd,
}
use memaudit.Memauditd.Start.{IsSafe, start_up-IsSafe}

module _ (compress : Bytes → Bytes) (enc : Encoders) (run : RunCalls) where
  -- What the final drain leaves of the closed spool, and what it does outside.
  abbrev pub left_by : Option PushTarget → Spool → Spool
  left_by none s = s
  left_by (some t) s = with_segments s (Ship.run run.passes t.shipper s.disk.segments).0.segments

  abbrev pub drain_events : Option PushTarget → Spool → List Event
  drain_events none s = []
  drain_events (some t) s = (Ship.run run.passes t.shipper s.disk.segments).0.events

  -- How the agent comes out: it does not start, or the spool cannot be closed, or it stops with the
  -- closed spool, less the segments that the final drain has removed after an answer for each.
  pub data Ran (a : StartedAgent) : Option Spool × ℕ → Type 0 where
    not_run :
        check_interval (interval_of a.config.interval_s) (some a.spool) ≡ err bad_interval
        → Ran a (some a.spool, 1)
    not_closed :
        {s : Spool} (e : SpoolError)
        → close compress enc run.last run.close_ok (run.goroutines a.spool) ≡ (s, err e)
        → Ran a (some s, 1)
    stopped :
        {s s' : Spool}
        → close compress enc run.last run.close_ok (run.goroutines a.spool) ≡ (s, ok tt)
        → s' ≡ left_by a.target s
        → s' ≡ with_segments s s'.disk.segments
        → IsAccounted s.disk.segments (drain_events a.target s) s'.disk.segments
        → Ran a (some s', 0)

  -- A run of the program: it refuses to start, or starts an agent that is safe.
  pub data Exits (calls : StartCalls) (path : Bytes) : Option Spool × ℕ → Type 0 where
    refused :
        {d : Disk} (e : StartError) → start_up calls path ≡ (d, err e) → Exits calls path (none, 1)
    started :
        {d : Disk} {a : StartedAgent} {end : Option Spool × ℕ}
        → start_up calls path ≡ (d, ok a)
        → IsSafe calls a
        → Ran a end
        → Exits calls path end

  exit_of-drained :
      (s : Spool) (r : Shipping × End)
      → (exit_of (drained s r).1 ≡ 0) × ((drained s r).0 ≡ with_segments s r.0.segments)
  exit_of-drained s (x, End.returned) = (refl, refl)
  exit_of-drained s (x, End.cancelled) = (refl, refl)
  exit_of-drained s (x, End.list_failed) = (refl, refl)
  exit_of-drained s (x, End.undecided) = (refl, refl)

  left_by-IsAccounted :
      (target : Option PushTarget) (s : Spool)
      → (left_by target s ≡ with_segments s (left_by target s).disk.segments)
        × IsAccounted s.disk.segments (drain_events target s) (left_by target s).disk.segments
  left_by-IsAccounted none s = (refl, (nothing, refl))
  left_by-IsAccounted (some t) s = (refl, run-IsAccounted run.passes t.shipper s.disk.segments)

  stopped_with :
      (a : StartedAgent) (s : Spool)
      → close compress enc run.last run.close_ok (run.goroutines a.spool) ≡ (s, ok tt)
      → (target : Option PushTarget) → a.target ≡ target
      → Ran a (some (left_by target s), 0)
  stopped_with a s h target t =
      let (frame, accounted) = left_by-IsAccounted target s in
      stopped h (sym (ap (λ (x : Option PushTarget). left_by x s) t)) frame (
        subst
          (λ (x : Option PushTarget).
            IsAccounted s.disk.segments (drain_events x s) (left_by target s).disk.segments)
          (sym t) accounted)

  finished-Ran :
      (a : StartedAgent) (o : Outcome) (target : Option PushTarget)
      → close compress enc run.last run.close_ok (run.goroutines a.spool) ≡ o
      → a.target ≡ target
      → Ran a (
        some (after_close (shipper_of target) run.passes o).0,
        exit_of (after_close (shipper_of target) run.passes o).1,
      )
  finished-Ran a (s, err e) target h t = not_closed e h
  finished-Ran a (s, ok u) none h t = stopped_with a s h none t
  finished-Ran a (s, ok u) (some x) h t =
      let (zero_, left) = exit_of-drained s (Ship.run run.passes x.shipper s.disk.segments) in
      rw (zero_, left) (stopped_with a s h (some x) t)

  run_agent-Ran :
      (a : StartedAgent) (interval : ℤ)
      → interval_of a.config.interval_s ≡ interval
      → Ran a (
          status_after (
            run_agent compress enc interval
              (some a.spool)
              run.goroutines
              (shipper_of a.target)
              run.last
              run.close_ok
              run.passes))
  unfolding run_agent finish
  run_agent-Ran a (pos zero) h = not_run (rw h refl)
  run_agent-Ran a (negsuc n) h = not_run (rw h refl)
  run_agent-Ran a (pos (suc n)) h =
      finished-Ran a (close compress enc run.last run.close_ok (run.goroutines a.spool)) a.target
        refl refl

  run_started-Exits :
      (calls : StartCalls) (path : Bytes) (r : Disk × Result StartError StartedAgent)
      → start_up calls path ≡ r
      → Exits calls path (run_started compress enc run r)
  run_started-Exits calls path (d, err e) h = refused e h
  run_started-Exits calls path (d, ok a) h =
      started h (start_up-IsSafe calls path d a h)
        (run_agent-Ran a (interval_of a.config.interval_s) refl)

  -- `runCmd` exits with 1 before it starts an agent, or starts one that pushes only with a URL, binds its
  -- debug endpoint to this machine only, and writes to the spool that was opened. Of those it exits with
  -- 0 only where that spool was closed without error, and leaves the closed spool as it is but for the
  -- segments that the final drain removed, each just after an answer 2xx or 4xx for it, even if the
  -- drain is not complete; it gives 1 where the interval is refused or the spool cannot be closed.
  pub run_cmd-Exits :
      (calls : StartCalls) (path : Bytes) → Exits calls path (run_cmd compress enc run calls path)
  unfolding run_cmd
  run_cmd-Exits calls path = run_started-Exits calls path (start_up calls path) refl
