-- ===== src/Ship/Backoff.antt =====
-- How long the shipper waits between the attempts for one segment.
use memaudit.Base.{
  ℕ, zero, suc, ◌*◌, ◌^◌, ◌/◌, ◌==◌, ◌≤◌, ◌<◌, ◌≡◌, ◌≢◌, inl, inr, refl, ap, subst, ◌∙◌, Bool, true,
  false, List, [], ◌∷◌, ◌++◌, Bytes, arith, if◌then◌else◌, Bool-cases, ltb, mul64, length,
}
use native.Mathlib.Nat.{pow-suc}
use memaudit.Spool.Disk.{Segment}
use memaudit.Ship.{
  Shipper, Attempt, Response, unreachable, status, Report, shipped, final, rejected, retry, Event,
  answered, slept, removed, Attempted, drop_segment, by_class, respond, ship, gt_int64,
  next_backoff, reset_backoff, Shipping, End, returned, after, conclude, ship_with_retry,
}

-- The waits among the events.
abbrev pub waits : List Event → List ℕ
waits [] = []
waits (answered name code ∷ events) = waits events
waits (slept d ∷ events) = d ∷ waits events
waits (removed name ∷ events) = waits events

abbrev pub at_most : ℕ → ℕ → ℕ
at_most max d = if ltb max d then max else d

-- The first `k` waits from the `i`-th on, for a first wait of `b`: doubled each time, up to `max`.
abbrev pub doublings : ℕ → ℕ → ℕ → ℕ → List ℕ
doublings max b i zero = []
doublings max b i (suc k) = at_most max (b * 2 ^ i) ∷ doublings max b (suc i) k

-- Attempts that each fail in a way worth a retry, and whose waits are not cancelled.
abbrev pub AllRetried : Bytes → List Segment → List Attempt → Type 0
AllRetried name segs [] = Unit
AllRetried name segs (a ∷ attempts) =
    ((ship a name segs).report ≡ retry) × (a.sleep_ok ≡ true) × AllRetried name segs attempts

waits-append : (a b : List Event) → waits (a ++ b) ≡ waits a ++ waits b
waits-append [] b = refl
waits-append (answered name code ∷ a) b = waits-append a b
waits-append (slept d ∷ a) b = ap (λ (l : List ℕ). d ∷ l) (waits-append a b)
waits-append (removed name ∷ a) b = waits-append a b

drop_segment-waits :
    (remove_ok : Bool) (report : Report) (name : Bytes) (code : ℕ) (segs : List Segment)
    → waits (drop_segment remove_ok report name code segs).events ≡ []
drop_segment-waits true report name code segs = refl
drop_segment-waits false report name code segs = refl

drop_segment-ne-retry :
    (remove_ok : Bool) (report : Report) (name : Bytes) (code : ℕ) (segs : List Segment)
    → report ≢ retry
    → (drop_segment remove_ok report name code segs).report ≢ retry
drop_segment-ne-retry true report name code segs ne = ne
drop_segment-ne-retry false report name code segs ne = ground arith

-- An attempt waits for nothing itself, and one that is to be retried changes no segment.
abbrev IsMild : List Segment → Attempted → Type 0
IsMild segs t = (waits t.events ≡ []) × (t.report ≡ retry → t.segments ≡ segs)

by_class-IsMild :
    (remove_ok : Bool) (name : Bytes) (code : ℕ) (segs : List Segment)
    → IsMild segs (by_class remove_ok name code segs)
unfolding by_class
by_class-IsMild remove_ok name code segs = elim (Bool-cases (code / 100 == 2)) [
  | inl two ↦ rw two (
    drop_segment-waits remove_ok shipped name code segs,
    λ h. absurd (drop_segment-ne-retry remove_ok shipped name code segs (ground arith) h),
  )
  | inr other ↦ elim (Bool-cases (code / 100 == 4)) [
    | inl four ↦
        rw (other, four)
          (
            drop_segment-waits remove_ok (final rejected) name code segs,
            λ h.
                absurd (
                  drop_segment-ne-retry remove_ok (final rejected) name code segs (ground arith) h),
          )
    | inr neither ↦ rw (other, neither) (refl, λ h. refl)
  ]
]

respond-IsMild :
    (r : Response) (remove_ok : Bool) (name : Bytes) (segs : List Segment)
    → IsMild segs (respond r remove_ok name segs)
respond-IsMild unreachable remove_ok name segs = (refl, λ h. refl)
respond-IsMild (status code) remove_ok name segs = by_class-IsMild remove_ok name code segs

ship-IsMild : (a : Attempt) (name : Bytes) (segs : List Segment) → IsMild segs (ship a name segs)
unfolding ship
ship-IsMild a name segs = elim (Bool-cases a.read_ok) [
  | inr e ↦ rw e (refl, λ h. refl)
  | inl e ↦ elim (Bool-cases a.request_ok) [
    | inr f ↦ rw (e, f) (refl, λ h. refl)
    | inl f ↦ rw (e, f) (respond-IsMild a.response a.remove_ok name segs)
  ]
]

double_capped :
    (m d x : ℕ)
    → m < 2 ^ 62
    → d ≡ at_most m x
    → (if gt_int64 (mul64 d 2) m then m else mul64 d 2) ≡ at_most m (x * 2)
double_capped m d x small e = ground arith

-- One wait of the schedule gives the next.
next_wait :
    (s : Shipper) (b i : ℕ)
    → s.max_backoff < 2 ^ 62
    → s.backoff ≡ at_most s.max_backoff (b * 2 ^ i)
    → (next_backoff s).backoff ≡ at_most s.max_backoff (b * 2 ^ suc i)
next_wait s b i small e =
    double_capped s.max_backoff s.backoff (b * 2 ^ i) small e
    ∙ ap (λ (x : ℕ). at_most s.max_backoff x) (grind (arith, pow-suc 2 i))

conclude_done :
    (r : Report) (sleep_ok : Bool) (t : Attempted) (s : Shipper) (later : Shipping × End)
    → r ≢ retry
    → conclude r sleep_ok t s later
      ≡ (record { shipper = reset_backoff s; segments = t.segments; events = t.events }, returned)
conclude_done shipped sleep_ok t s later ne = refl
conclude_done (final e) sleep_ok t s later ne = refl
conclude_done retry sleep_ok t s later ne = absurd (ne refl)

conclude_again :
    (r : Report) (sleep_ok : Bool) (t : Attempted) (s : Shipper) (later : Shipping × End)
    → r ≡ retry
    → sleep_ok ≡ true
    → conclude r sleep_ok t s later ≡ after (t.events ++ slept s.backoff ∷ []) later
conclude_again r sleep_ok t s later again slept_ok = rw (again, slept_ok) refl

-- The end of a loop for one segment: it returned, having waited so long, with the backoff reset.
abbrev pub HasWaited : List ℕ → ℕ → Shipping × End → Type 0
HasWaited ds backoff (x, end) =
    (end ≡ returned) × (waits x.events ≡ ds) × (x.shipper.backoff ≡ backoff)

HasWaited-after :
    (es : List Event) (d : ℕ) (ds : List ℕ) (backoff : ℕ) (r : Shipping × End)
    → waits es ≡ []
    → HasWaited ds backoff r
    → HasWaited (d ∷ ds) backoff (after (es ++ slept d ∷ []) r)
HasWaited-after es d ds backoff (x, end) none_ (e, f, g) = (
  e,
  waits-append (es ++ slept d ∷ []) x.events
      ∙ ap (λ (l : List ℕ). l ++ waits x.events)
          (waits-append es (slept d ∷ []) ∙ ap (λ (l : List ℕ). l ++ d ∷ []) none_)
      ∙ ap (λ (l : List ℕ). d ∷ l) f,
  g,
)

retried_from :
    (name : Bytes) (segs : List Segment) (b i : ℕ) (attempts : List Attempt) (last : Attempt)
    (s : Shipper)
    → s.max_backoff < 2 ^ 62
    → s.backoff ≡ at_most s.max_backoff (b * 2 ^ i)
    → AllRetried name segs attempts
    → (ship last name segs).report ≢ retry
    → HasWaited
        (doublings s.max_backoff b i (length attempts))
        s.min_backoff
        (ship_with_retry (attempts ++ last ∷ []) name s segs)
unfolding ship_with_retry
retried_from name segs b i [] last s small e all ne =
    rw
      (conclude_done (ship last name segs).report last.sleep_ok (ship last name segs) s
        (ship_with_retry [] name (next_backoff s) (ship last name segs).segments) ne)
      (refl, (ship-IsMild last name segs).0, refl)
retried_from name segs b i (a ∷ attempts) last s small e (again, slept_ok, all) ne =
    let (still, same) = ship-IsMild a name segs in
    let later : List Segment → Shipping × End =
      λ l. ship_with_retry (attempts ++ last ∷ []) name (next_backoff s) l in
    let ds : List ℕ = doublings s.max_backoff b (suc i) (length attempts) in
    rw
      (
        conclude_again (ship a name segs).report a.sleep_ok (ship a name segs) s
            (later (ship a name segs).segments) again slept_ok,
        same again,
      )
      (subst
        (λ (d : ℕ).
          HasWaited (d ∷ ds) s.min_backoff
            (after ((ship a name segs).events ++ slept s.backoff ∷ []) (later segs)))
        e
        (HasWaited-after (ship a name segs).events s.backoff ds s.min_backoff (later segs) still (
          retried_from name segs b (suc i) attempts last (next_backoff s) small
            (next_wait s b i small e) all ne)))

-- After `k` attempts worth a retry and one that is not, the waits were the backoff at the start, doubled
-- each time and capped at the bound, and the backoff is back at its minimum. The bound is below 2^62 ns.
pub ship_with_retry-HasWaited :
    (attempts : List Attempt) (last : Attempt) (name : Bytes) (s : Shipper) (segs : List Segment)
    → s.max_backoff < 2 ^ 62
    → s.backoff ≤ s.max_backoff
    → AllRetried name segs attempts
    → (ship last name segs).report ≢ retry
    → HasWaited
        (doublings s.max_backoff s.backoff 0 (length attempts))
        s.min_backoff
        (ship_with_retry (attempts ++ last ∷ []) name s segs)
ship_with_retry-HasWaited attempts last name s segs small le all ne =
    retried_from name segs s.backoff 0 attempts last s small (ground arith) all ne
