-- ===== src/Ship/Tests.antt =====
-- Tests of internal/ship, and the theorems at concrete inputs.
use memaudit.Base.{ℕ, ◌≡◌, ◌≢◌, inl, refl, true, false, List, [], ◌∷◌, ◌++◌, codes, arith, ℤ}
use memaudit.Spool.Disk.{Segment}
use memaudit.Ship.{
  Report, Shipper, new, Attempt, unreachable, status, ship, by_class, ship_with_retry, Pass, run,
  undecided,
}
use memaudit.Ship.Trace.{IsAccounted, run-IsAccounted}
use memaudit.Ship.Backoff.{HasWaited, doublings, ship_with_retry-HasWaited}
use memaudit.Ship.Drain.{HasLeft, run-drains, run-stuck, now, unreached}

abbrev segment_a : Segment
segment_a = record { name = codes "a.jsonl.zst"; content = codes "a" }

abbrev segment_b : Segment
segment_b = record { name = codes "b.jsonl.zst"; content = codes "b" }

abbrev offline : Attempt
offline = record {
  read_ok = true;
  request_ok = true;
  response = unreachable;
  remove_ok = true;
  sleep_ok = true;
}

abbrev answer : ℕ → Attempt
answer code = record {
  read_ok = true;
  request_ok = true;
  response = status code;
  remove_ok = true;
  sleep_ok = true;
}

abbrev unreadable : Attempt
unreadable = record {
  read_ok = false;
  request_ok = true;
  response = unreachable;
  remove_ok = true;
  sleep_ok = true;
}

abbrev pass : List Attempt → Pass
pass attempts = record { list_ok = true; attempts = λ name. attempts }

abbrev shipper : Shipper
shipper = new (ℤ.pos 3) (ℤ.pos 10)

run-IsAccounted_example :
    IsAccounted
      (segment_a ∷ segment_b ∷ [])
      (run (pass (offline ∷ answer 413 ∷ []) ∷ []) shipper (segment_a ∷ segment_b ∷ [])).0.events
      (run (pass (offline ∷ answer 413 ∷ []) ∷ []) shipper (segment_a ∷ segment_b ∷ [])).0.segments
run-IsAccounted_example =
    run-IsAccounted (pass (offline ∷ answer 413 ∷ []) ∷ []) shipper (segment_a ∷ segment_b ∷ [])

still_offline : (ship offline (codes "a.jsonl.zst") (segment_a ∷ [])).report ≡ Report.retry
unfolding ship
still_offline = refl

final_answer : (ship (answer 200) (codes "a.jsonl.zst") (segment_a ∷ [])).report ≢ Report.retry
unfolding ship by_class
final_answer = ground arith

waits_double : doublings 10 3 0 3 ≡ 3 ∷ 6 ∷ 10 ∷ []
waits_double = refl

ship_with_retry-HasWaited_example : HasWaited (doublings 10 3 0 3) 3 (
    ship_with_retry
      ((offline ∷ offline ∷ offline ∷ []) ++ answer 200 ∷ [])
      (codes "a.jsonl.zst")
      shipper
      (segment_a ∷ []))
ship_with_retry-HasWaited_example =
    ship_with_retry-HasWaited (offline ∷ offline ∷ offline ∷ []) (answer 200) (codes "a.jsonl.zst")
      shipper (segment_a ∷ []) (omega arith) (omega arith)
      (still_offline, refl, (still_offline, refl, (still_offline, refl, tt))) final_answer

run-drains_example :
    HasLeft []
      (run (pass (offline ∷ answer 200 ∷ []) ∷ pass [] ∷ []) shipper (segment_a ∷ segment_b ∷ []))
run-drains_example =
    run-drains (pass (offline ∷ answer 200 ∷ [])) (pass []) [] shipper (segment_a ∷ segment_b ∷ [])
      refl refl
      (
        unreached refl refl refl refl (now refl refl refl (inl refl) refl),
        (unreached refl refl refl refl (now refl refl refl (inl refl) refl), tt),
      )

run-stuck_example :
    ((run (pass (unreadable ∷ []) ∷ pass (unreadable ∷ []) ∷ []) shipper (segment_a ∷ [])).1
      ≡ undecided)
    × ((run
          (pass (unreadable ∷ []) ∷ pass (unreadable ∷ []) ∷ [])
          shipper
          (segment_a ∷ [])).0.events
        ≡ [])
run-stuck_example =
    run-stuck (pass (unreadable ∷ []) ∷ pass (unreadable ∷ []) ∷ []) shipper segment_a
      (refl, refl, (refl, refl, tt))
