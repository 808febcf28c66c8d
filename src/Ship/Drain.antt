-- ===== src/Ship/Drain.antt =====
-- When `Run` empties the spool, and when it never ends.
use memaudit.Base.{
  ℕ, ◌/◌, ◌≡◌, ◌⊎◌, inl, inr, refl, true, false, List, [], ◌∷◌, Bytes, bytes_eq_refl,
}
use memaudit.Spool.Disk.{Segment, remove}
use memaudit.Ship.{
  Shipper, Attempt, unreachable, status, Event, slept, by_class, ship, next_backoff, reset_backoff,
  Shipping, End, returned, undecided, after, then_ship, ship_with_retry, ship_each, names, Pass,
  run_listed, run,
}

-- Attempts for one segment of which one is answered with a 2xx or a 4xx and the removal then succeeds;
-- before it come only attempts that end in no such answer.
pub data IsServed : List Attempt → Type 0 where
  now :
      {a : Attempt} {attempts : List Attempt} {code : ℕ}
      → a.read_ok ≡ true
      → a.request_ok ≡ true
      → a.response ≡ status code
      → (code / 100 ≡ 2) ⊎ (code / 100 ≡ 4)
      → a.remove_ok ≡ true
      → IsServed (a ∷ attempts)
  unreached :
      {a : Attempt} {attempts : List Attempt}
      → a.read_ok ≡ true
      → a.request_ok ≡ true
      → a.response ≡ unreachable
      → a.sleep_ok ≡ true
      → IsServed attempts
      → IsServed (a ∷ attempts)

-- `Run` or a part of it returned and left these segments.
abbrev pub HasLeft : List Segment → Shipping × End → Type 0
HasLeft segs (x, end) = (end ≡ returned) × (x.segments ≡ segs)

remove_first : (t : Segment) (rest : List Segment) → remove t.name (t ∷ rest) ≡ rest
unfolding remove
remove_first t rest = rw (bytes_eq_refl t.name) refl

HasLeft-after :
    (es : List Event) (segs : List Segment) (r : Shipping × End)
    → HasLeft segs r
    → HasLeft segs (after es r)
HasLeft-after es segs (x, end) h = h

HasLeft-then_ship :
    (segs segs' : List Segment) (r : Shipping × End) (k : Shipper → List Segment → Shipping × End)
    → HasLeft segs r
    → ((s : Shipper) → HasLeft segs' (k s segs))
    → HasLeft segs' (then_ship r k)
HasLeft-then_ship segs segs' (x, end) k (e, f) later =
    rw (e, f) (HasLeft-after x.events segs' (k x.shipper segs) (later x.shipper))

pub served :
    (attempts : List Attempt) (t : Segment) (rest : List Segment) (s : Shipper)
    → IsServed attempts
    → HasLeft rest (ship_with_retry attempts t.name s (t ∷ rest))
unfolding ship_with_retry ship by_class
served _ t rest s (now r q e (inl two) m) = rw (r, q, e, m, two) (refl, remove_first t rest)
served _ t rest s (now r q e (inr four) m) = rw (r, q, e, m, four) (refl, remove_first t rest)
served _ t rest s (unreached {a} {attempts} r q e w later) =
    rw (r, q, e, w)
      (HasLeft-after (slept s.backoff ∷ []) rest
        (ship_with_retry attempts t.name (next_backoff s) (t ∷ rest))
        (served attempts t rest (next_backoff s) later))

abbrev pub AllServed : (Bytes → List Attempt) → List Segment → Type 0
AllServed attempts [] = Unit
AllServed attempts (t ∷ rest) = IsServed (attempts t.name) × AllServed attempts rest

pub each_served :
    (attempts : Bytes → List Attempt) (segs : List Segment) (s : Shipper)
    → AllServed attempts segs
    → HasLeft [] (ship_each attempts (names segs) s segs)
unfolding ship_each
each_served attempts [] s all = (refl, refl)
each_served attempts (t ∷ rest) s (h, all) =
    HasLeft-then_ship rest [] (ship_with_retry (attempts t.name) t.name s (t ∷ rest)) _
      (served (attempts t.name) t rest s h) (λ s'. each_served attempts rest s' all)

run_listed-served :
    (attempts : Bytes → List Attempt) (segs : List Segment) (s : Shipper)
    (k : Shipper → List Segment → Shipping × End)
    → AllServed attempts segs
    → ((s' : Shipper) → HasLeft [] (k s' []))
    → HasLeft [] (run_listed attempts (names segs) s segs k)
run_listed-served attempts [] s k all later = (refl, refl)
run_listed-served attempts (t ∷ rest) s k all later =
    HasLeft-then_ship [] [] (ship_each attempts (names (t ∷ rest)) s (t ∷ rest)) k
      (each_served attempts (t ∷ rest) s all) later

-- Where the listing succeeds twice, and each segment after attempts that do not reach the endpoint is
-- answered with a 2xx or a 4xx and can be removed, `Run` returns without error and no segment is left.
pub run-drains :
    (p q : Pass) (passes : List Pass) (s : Shipper) (segs : List Segment)
    → p.list_ok ≡ true
    → q.list_ok ≡ true
    → AllServed p.attempts segs
    → HasLeft [] (run (p ∷ q ∷ passes) s segs)
unfolding run
run-drains p q passes s segs e f all =
    rw e (run_listed-served p.attempts segs s _ all (λ s'. rw f (refl, refl)))

-- The segment cannot be read at the first attempt.
abbrev pub IsUnreadable : List Attempt → Type 0
IsUnreadable [] = ⊥
IsUnreadable (a ∷ attempts) = a.read_ok ≡ false

abbrev pub AllUnreadable : Bytes → List Pass → Type 0
AllUnreadable name [] = Unit
AllUnreadable name (p ∷ passes) =
    (p.list_ok ≡ true) × IsUnreadable (p.attempts name) × AllUnreadable name passes

unreadable_returned :
    (attempts : List Attempt) (name : Bytes) (s : Shipper) (segs : List Segment)
    → IsUnreadable attempts
    → ship_with_retry attempts name s segs
      ≡ (record { shipper = reset_backoff s; segments = segs; events = [] }, returned)
unfolding ship_with_retry ship
unreadable_returned [] name s segs h = absurd h
unreadable_returned (a ∷ attempts) name s segs h = rw h refl

-- While the one segment in the spool cannot be read, `Run` lists it again and again: after any number
-- of passes it has not returned, and it has neither waited nor sent anything.
pub run-stuck :
    (passes : List Pass) (s : Shipper) (t : Segment)
    → AllUnreadable t.name passes
    → ((run passes s (t ∷ [])).1 ≡ undecided) × ((run passes s (t ∷ [])).0.events ≡ [])
unfolding run ship_each
run-stuck [] s t all = (refl, refl)
run-stuck (p ∷ passes) s t (listed, unreadable, all) =
    rw (listed, unreadable_returned (p.attempts t.name) t.name s (t ∷ []) unreadable)
      (run-stuck passes (reset_backoff s) t all)
