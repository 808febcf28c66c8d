-- ===== src/Agent/Shutdown.antt =====
-- internal/agent/agent.go: what `Run` checks first, and what it does when all goroutines have returned.
pub mod Delivery
use memaudit.Base.{
  ℕ, zero, suc, ◌*◌, Bool, true, false, List, [], ◌∷◌, Bytes, Option, none, some, Result, ok, err,
  ℤ, pos, negsuc,
}
use memaudit.Spool.State.{Spool, SpoolError, Outcome}
use memaudit.Spool.Cap.{Encoders, with_segments}
use memaudit.Spool.Ops.{RotateCalls, close}
use memaudit.Ship as Ship
use memaudit.Ship.{Shipper, Shipping, Pass, End}

abbrev pub default_shutdown_timeout : ℕ
default_shutdown_timeout = 15 * 1000000000

pub data RunError : Type 0 where
  bad_interval no_spool : RunError
  close_failed : SpoolError → RunError
  drain_incomplete : End → RunError

-- The final drain, which the timeout may cancel.
abbrev pub drained : Spool → Shipping × End → Spool × Result RunError (Unit {0})
drained s (x, End.returned) = (with_segments s x.segments, ok tt)
drained s (x, End.cancelled) = (with_segments s x.segments, err (drain_incomplete End.cancelled))
drained s (x, End.list_failed) =
    (with_segments s x.segments, err (drain_incomplete End.list_failed))
drained s (x, End.undecided) = (with_segments s x.segments, err (drain_incomplete End.undecided))

-- In bundle mode there is no shipper.
abbrev pub final_drain : Option Shipper → List Pass → Spool → Spool × Result RunError (Unit {0})
final_drain none passes s = (s, ok tt)
final_drain (some shipper) passes s = drained s (Ship.run passes shipper s.disk.segments)

abbrev pub after_close : Option Shipper → List Pass → Outcome → Spool × Result RunError (Unit {0})
after_close shipper passes (s, err e) = (s, err (close_failed e))
after_close shipper passes (s, ok u) = final_drain shipper passes s

abbrev pub check_interval : ℤ → Option Spool → Result RunError Spool
check_interval (negsuc n) spool = err bad_interval
check_interval (pos zero) spool = err bad_interval
check_interval (pos (suc n)) none = err no_spool
check_interval (pos (suc n)) (some s) = ok s

abbrev pub timeout_of : ℤ → ℕ
timeout_of (pos zero) = default_shutdown_timeout
timeout_of (pos (suc n)) = suc n
timeout_of (negsuc n) = default_shutdown_timeout

module _ (compress : Bytes → Bytes) (enc : Encoders) where
  -- From `wg.Wait` on.
  unfoldable pub finish :
      Option Shipper → RotateCalls → Bool → List Pass → Spool → Spool × Result RunError (Unit {0})
  finish shipper calls close_ok passes s =
      after_close shipper passes (close compress enc calls close_ok s)

  -- `Run`: `goroutines` is what the goroutines make of the spool until the last has returned.
  unfoldable pub run_agent :
      ℤ
      → Option Spool
      → (Spool → Spool)
      → Option Shipper
      → RotateCalls
      → Bool
      → List Pass
      → Option Spool × Result RunError (Unit {0})
  run_agent interval spool goroutines shipper calls close_ok passes =
      elim (check_interval interval spool) [
        | err e ↦ (spool, err e)
        | ok s ↦ let (s', r) = finish shipper calls close_ok passes (goroutines s) in (some s', r)
      ]
