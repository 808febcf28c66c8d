-- ===== src/Ship/Delivered.antt =====
-- When `Run` ships every segment: each is taken by the endpoint, with a 2xx.
use memaudit.Base.{
  ℕ, ◌/◌, ◌≡◌, inl, refl, sym, subst, Bool, true, if◌then◌else◌, List, [], ◌∷◌, ◌++◌, Bytes, All,
}
use memaudit.Spool.Disk.{Segment}
use memaudit.Ship.{
  Shipper, Attempt, unreachable, status, Event, answered, slept, removed, by_class, ship,
  next_backoff, Shipping, End, after, then_ship, ship_with_retry, ship_each, names, Pass, run,
  run_listed, list_failed,
}
use memaudit.Ship.Drain.{IsServed, now, unreached, AllServed, HasLeft, served, each_served}

-- Attempts for one segment of which one is answered with a 2xx and the removal then succeeds; before it
-- come only attempts that do not reach the endpoint.
pub data IsTaken : List Attempt → Type 0 where
  taken :
      {a : Attempt} {attempts : List Attempt} {code : ℕ}
      → a.read_ok ≡ true
      → a.request_ok ≡ true
      → a.response ≡ status code
      → code / 100 ≡ 2
      → a.remove_ok ≡ true
      → IsTaken (a ∷ attempts)
  later :
      {a : Attempt} {attempts : List Attempt}
      → a.read_ok ≡ true
      → a.request_ok ≡ true
      → a.response ≡ unreachable
      → a.sleep_ok ≡ true
      → IsTaken attempts
      → IsTaken (a ∷ attempts)

-- Among the events is an answer 2xx for the segment, with its removal right after it.
pub data IsDelivered (name : Bytes) : List Event → Type 0 where
  here :
      {code : ℕ} {events : List Event}
      → code / 100 ≡ 2
      → IsDelivered name (answered name code ∷ removed name ∷ events)
  there :
      {e : Event} {events : List Event} → IsDelivered name events → IsDelivered name (e ∷ events)

IsTaken-IsServed : {attempts : List Attempt} → IsTaken attempts → IsServed attempts
IsTaken-IsServed (taken r q e two m) = now r q e (inl two) m
IsTaken-IsServed (later r q e w rest) = unreached r q e w (IsTaken-IsServed rest)

pub AllServed-each :
    (attempts : Bytes → List Attempt) (segs : List Segment)
    → ((name : Bytes) → IsTaken (attempts name))
    → AllServed attempts segs
AllServed-each attempts [] h = tt
AllServed-each attempts (t ∷ segs) h = (IsTaken-IsServed (h t.name), AllServed-each attempts segs h)

IsDelivered-before :
    {name : Bytes} {events : List Event} (more : List Event)
    → IsDelivered name events
    → IsDelivered name (events ++ more)
IsDelivered-before more (here two) = here two
IsDelivered-before more (there d) = there (IsDelivered-before more d)

IsDelivered-behind :
    {name : Bytes} (before : List Event) {events : List Event}
    → IsDelivered name events
    → IsDelivered name (before ++ events)
IsDelivered-behind [] d = d
IsDelivered-behind (e ∷ before) d = there (IsDelivered-behind before d)

-- The events tell of a delivery of each segment.
abbrev pub AllDelivered : List Segment → List Event → Type 0
AllDelivered segs events = All (λ (t : Segment). IsDelivered t.name events) segs

AllDelivered-before :
    (segs : List Segment) (events more : List Event)
    → AllDelivered segs events
    → AllDelivered segs (events ++ more)
AllDelivered-before [] events more all = tt
AllDelivered-before (t ∷ segs) events more (d, all) =
    (IsDelivered-before more d, AllDelivered-before segs events more all)

AllDelivered-behind :
    (segs : List Segment) (before events : List Event)
    → AllDelivered segs events
    → AllDelivered segs (before ++ events)
AllDelivered-behind [] before events all = tt
AllDelivered-behind (t ∷ segs) before events (d, all) =
    (IsDelivered-behind before d, AllDelivered-behind segs before events all)

after-events : (es : List Event) (r : Shipping × End) → (after es r).0.events ≡ es ++ r.0.events
after-events es (x, end) = refl

then_ship-events :
    (segs : List Segment) (r : Shipping × End) (k : Shipper → List Segment → Shipping × End)
    → HasLeft segs r
    → (then_ship r k).0.events ≡ r.0.events ++ (k r.0.shipper segs).0.events
then_ship-events segs (x, end) k (e, f) = rw (e, f) (after-events x.events (k x.shipper segs))

taken-IsDelivered :
    (attempts : List Attempt) (t : Segment) (rest : List Segment) (s : Shipper)
    → IsTaken attempts
    → IsDelivered t.name (ship_with_retry attempts t.name s (t ∷ rest)).0.events
unfolding ship_with_retry ship by_class
taken-IsDelivered _ t rest s (taken r q e two m) = rw (r, q, e, m, two) (here two)
taken-IsDelivered _ t rest s (later {a} {attempts} r q e w h) =
    rw
      (
        r,
        q,
        e,
        w,
        after-events (slept s.backoff ∷ [])
            (ship_with_retry attempts t.name (next_backoff s) (t ∷ rest)),
      )
      (there (taken-IsDelivered attempts t rest (next_backoff s) h))

module _ (attempts : Bytes → List Attempt) (h : (name : Bytes) → IsTaken (attempts name)) where
  each_delivered :
      (segs : List Segment) (s : Shipper)
      → AllDelivered segs (ship_each attempts (names segs) s segs).0.events
  unfolding ship_each
  each_delivered [] s = tt
  each_delivered (t ∷ rest) s =
      let first = ship_with_retry (attempts t.name) t.name s (t ∷ rest) in
      subst (AllDelivered (t ∷ rest))
        (sym (
          then_ship-events rest first (λ s' segs'. ship_each attempts (names rest) s' segs')
            (served (attempts t.name) t rest s (IsTaken-IsServed (h t.name)))))
        (
          IsDelivered-before _ (taken-IsDelivered (attempts t.name) t rest s (h t.name)),
          AllDelivered-behind rest first.0.events _ (each_delivered rest first.0.shipper),
        )

-- Where the first listing succeeds and the endpoint takes each segment, `Run` delivers each of them.
pub run-AllDelivered :
    (p : Pass) (passes : List Pass) (s : Shipper) (segs : List Segment)
    → p.list_ok ≡ true
    → ((name : Bytes) → IsTaken (p.attempts name))
    → AllDelivered segs (run (p ∷ passes) s segs).0.events
unfolding run
run-AllDelivered p passes s [] e h = tt
run-AllDelivered p passes s (t ∷ rest) e h =
    let segs : List Segment = t ∷ rest in
    let each = ship_each p.attempts (names segs) s segs in
    let listed : AllDelivered segs (then_ship each (λ s' segs'. run passes s' segs')).0.events =
      subst (AllDelivered segs)
        (sym (
          then_ship-events [] each (λ s' segs'. run passes s' segs')
            (each_served p.attempts segs s (AllServed-each p.attempts segs h))))
        (AllDelivered-before segs each.0.events _ (each_delivered p.attempts h segs s)) in
    subst
      (λ (b : Bool).
        AllDelivered segs
          (if b
            then run_listed p.attempts (names segs) s segs (λ s' segs'. run passes s' segs')
            else (record { shipper = s; segments = segs; events = [] }, list_failed)).0.events)
      (sym e) listed
