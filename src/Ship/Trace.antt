-- ===== src/Ship/Trace.antt =====
-- A segment is removed only after the endpoint has answered for it.
use memaudit.Base.{
  ℕ, ◌/◌, ◌==◌, ◌≡◌, ◌⊎◌, inl, inr, refl, sym, ap, ◌∙◌, Bool, true, false, List, [], ◌∷◌, ◌++◌,
  Bytes, Bool-cases, ==_iff,
}
use memaudit.Spool.Disk.{Segment, remove}
use memaudit.Ship.{
  Shipper, Attempt, Response, respond, unreachable, status, Report, shipped, final, rejected, retry,
  Event, answered, slept, removed, drop_segment, by_class, ship, next_backoff, Shipping, End,
  returned, cancelled, list_failed, undecided, after, then_ship, ship_with_retry, ship_each, names,
  Pass, run, conclude, run_listed,
}

-- The segments that a sequence of events leaves.
abbrev pub remaining : List Event → List Segment → List Segment
remaining [] segs = segs
remaining (answered name code ∷ events) segs = remaining events segs
remaining (slept d ∷ events) segs = remaining events segs
remaining (removed name ∷ events) segs = remaining events (remove name segs)

-- Each removal comes right after an answer for that segment, of class 2xx or 4xx.
pub data IsJustified : List Event → Type 0 where
  nothing : IsJustified []
  waited : {d : ℕ} {events : List Event} → IsJustified events → IsJustified (slept d ∷ events)
  kept :
      {name : Bytes} {code : ℕ} {events : List Event}
      → IsJustified events
      → IsJustified (answered name code ∷ events)
  gone :
      {name : Bytes} {code : ℕ} {events : List Event}
      → (code / 100 ≡ 2) ⊎ (code / 100 ≡ 4)
      → IsJustified events
      → IsJustified (answered name code ∷ removed name ∷ events)

IsJustified-append : {a b : List Event} → IsJustified a → IsJustified b → IsJustified (a ++ b)
IsJustified-append nothing k = k
IsJustified-append (waited h) k = waited (IsJustified-append h k)
IsJustified-append (kept h) k = kept (IsJustified-append h k)
IsJustified-append (gone c h) k = gone c (IsJustified-append h k)

remaining-append :
    (a b : List Event) (segs : List Segment)
    → remaining (a ++ b) segs ≡ remaining b (remaining a segs)
remaining-append [] b segs = refl
remaining-append (answered name code ∷ a) b segs = remaining-append a b segs
remaining-append (slept d ∷ a) b segs = remaining-append a b segs
remaining-append (removed name ∷ a) b segs = remaining-append a b (remove name segs)

-- The segments are what the events say, and the events are justified.
abbrev pub IsAccounted : List Segment → List Event → List Segment → Type 0
IsAccounted segs events segs' = IsJustified events × (segs' ≡ remaining events segs)

IsAccounted-append :
    (segs segs' segs'' : List Segment) (a b : List Event)
    → IsAccounted segs a segs'
    → IsAccounted segs' b segs''
    → IsAccounted segs (a ++ b) segs''
IsAccounted-append segs segs' segs'' a b (h, e) (k, f) =
    (IsJustified-append h k, f ∙ ap (λ l. remaining b l) e ∙ sym (remaining-append a b segs))

abbrev IsTraced : List Segment → Shipping × End → Type 0
IsTraced segs (x, end) = IsAccounted segs x.events x.segments

drop_segment-IsAccounted :
    (remove_ok : Bool) (report : Report) (name : Bytes) (code : ℕ) (segs : List Segment)
    → (code / 100 ≡ 2) ⊎ (code / 100 ≡ 4)
    → IsAccounted segs
        (drop_segment remove_ok report name code segs).events
        (drop_segment remove_ok report name code segs).segments
drop_segment-IsAccounted true report name code segs c = (gone c nothing, refl)
drop_segment-IsAccounted false report name code segs c = (kept nothing, refl)

by_class-IsAccounted :
    (remove_ok : Bool) (name : Bytes) (code : ℕ) (segs : List Segment)
    → IsAccounted segs
        (by_class remove_ok name code segs).events
        (by_class remove_ok name code segs).segments
unfolding by_class
by_class-IsAccounted remove_ok name code segs = elim (Bool-cases (code / 100 == 2)) [
  | inl two ↦ rw two (
      drop_segment-IsAccounted remove_ok shipped name code segs
        (inl ((==_iff (code / 100) 2).0 two)))
  | inr other ↦ elim (Bool-cases (code / 100 == 4)) [
    | inl four ↦
        rw (other, four)
          (drop_segment-IsAccounted remove_ok (final rejected) name code segs
            (inr ((==_iff (code / 100) 4).0 four)))
    | inr none_ ↦ rw (other, none_) (kept nothing, refl)
  ]
]

respond-IsAccounted :
    (r : Response) (remove_ok : Bool) (name : Bytes) (segs : List Segment)
    → IsAccounted segs
        (respond r remove_ok name segs).events
        (respond r remove_ok name segs).segments
respond-IsAccounted unreachable remove_ok name segs = (nothing, refl)
respond-IsAccounted (status code) remove_ok name segs =
    by_class-IsAccounted remove_ok name code segs

ship-IsAccounted :
    (a : Attempt) (name : Bytes) (segs : List Segment)
    → IsAccounted segs (ship a name segs).events (ship a name segs).segments
unfolding ship
ship-IsAccounted a name segs = elim (Bool-cases a.read_ok) [
  | inr e ↦ rw e (nothing, refl)
  | inl e ↦ elim (Bool-cases a.request_ok) [
    | inr f ↦ rw (e, f) (nothing, refl)
    | inl f ↦ rw (e, f) (respond-IsAccounted a.response a.remove_ok name segs)
  ]
]

IsTraced-after :
    (segs segs' : List Segment) (es : List Event) (r : Shipping × End)
    → IsAccounted segs es segs'
    → IsTraced segs' r
    → IsTraced segs (after es r)
IsTraced-after segs segs' es (x, end) h k = IsAccounted-append segs segs' x.segments es x.events h k

then_ship-IsTraced :
    (segs : List Segment) (r : Shipping × End) (k : Shipper → List Segment → Shipping × End)
    → IsTraced segs r
    → ((s : Shipper) (segs' : List Segment) → IsTraced segs' (k s segs'))
    → IsTraced segs (then_ship r k)
then_ship-IsTraced segs (x, returned) k h later =
    IsTraced-after segs x.segments x.events (k x.shipper x.segments) h (later x.shipper x.segments)
then_ship-IsTraced segs (x, cancelled) k h later = h
then_ship-IsTraced segs (x, list_failed) k h later = h
then_ship-IsTraced segs (x, undecided) k h later = h

slept-IsAccounted :
    (a : Attempt) (name : Bytes) (d : ℕ) (segs : List Segment)
    → IsAccounted segs ((ship a name segs).events ++ slept d ∷ []) (ship a name segs).segments
slept-IsAccounted a name d segs =
    IsAccounted-append segs (ship a name segs).segments (ship a name segs).segments
      (ship a name segs).events (slept d ∷ []) (ship-IsAccounted a name segs) (waited nothing, refl)

conclude-IsTraced :
    (r : Report) (sleep_ok : Bool) (a : Attempt) (name : Bytes) (s : Shipper) (segs : List Segment)
    (later : Shipping × End)
    → IsTraced (ship a name segs).segments later
    → IsTraced segs (conclude r sleep_ok (ship a name segs) s later)
conclude-IsTraced shipped sleep_ok a name s segs later h = ship-IsAccounted a name segs
conclude-IsTraced (final e) sleep_ok a name s segs later h = ship-IsAccounted a name segs
conclude-IsTraced retry true a name s segs later h =
    IsTraced-after segs (ship a name segs).segments _ later
      (slept-IsAccounted a name s.backoff segs) h
conclude-IsTraced retry false a name s segs later h = slept-IsAccounted a name s.backoff segs

ship_with_retry-IsTraced :
    (attempts : List Attempt) (name : Bytes) (s : Shipper) (segs : List Segment)
    → IsTraced segs (ship_with_retry attempts name s segs)
unfolding ship_with_retry
ship_with_retry-IsTraced [] name s segs = (nothing, refl)
ship_with_retry-IsTraced (a ∷ attempts) name s segs =
    conclude-IsTraced (ship a name segs).report a.sleep_ok a name s segs _
      (ship_with_retry-IsTraced attempts name (next_backoff s) (ship a name segs).segments)

ship_each-IsTraced :
    (attempts : Bytes → List Attempt) (ns : List Bytes) (s : Shipper) (segs : List Segment)
    → IsTraced segs (ship_each attempts ns s segs)
unfolding ship_each
ship_each-IsTraced attempts [] s segs = (nothing, refl)
ship_each-IsTraced attempts (n ∷ ns) s segs =
    then_ship-IsTraced segs (ship_with_retry (attempts n) n s segs) _
      (ship_with_retry-IsTraced (attempts n) n s segs)
      (λ s' segs'. ship_each-IsTraced attempts ns s' segs')

run_listed-IsTraced :
    (attempts : Bytes → List Attempt) (ns : List Bytes) (s : Shipper) (segs : List Segment)
    (k : Shipper → List Segment → Shipping × End)
    → ((s' : Shipper) (segs' : List Segment) → IsTraced segs' (k s' segs'))
    → IsTraced segs (run_listed attempts ns s segs k)
run_listed-IsTraced attempts [] s segs k later = (nothing, refl)
run_listed-IsTraced attempts (n ∷ ns) s segs k later =
    then_ship-IsTraced segs (ship_each attempts (n ∷ ns) s segs) k
      (ship_each-IsTraced attempts (n ∷ ns) s segs) later

-- Whatever the calls answer and however `Run` ends, a segment that it removed was answered for, with a
-- 2xx or a 4xx, just before its removal; and the segments left are exactly those not removed so.
pub run-IsAccounted :
    (passes : List Pass) (s : Shipper) (segs : List Segment)
    → IsAccounted segs (run passes s segs).0.events (run passes s segs).0.segments
unfolding run
run-IsAccounted [] s segs = (nothing, refl)
run-IsAccounted (p ∷ passes) s segs = elim (Bool-cases p.list_ok) [
  | inr e ↦ rw e (nothing, refl)
  | inl e ↦ rw e (
      run_listed-IsTraced p.attempts (names segs) s segs _
        (λ s' segs'. run-IsAccounted passes s' segs'))
]
