-- ===== src/Ship.antt =====
-- internal/ship/ship.go: the shipper. The HTTP client, the file calls and the timer are the answers in an
-- `Attempt`; durations are nanoseconds in an `int64`, kept modulo 2^64.
pub mod Backoff
pub mod Trace
pub mod Drain
pub mod Delivered
pub mod Tests
use memaudit.Base.{
  ℕ, zero, suc, ◌+◌, ◌*◌, ◌/◌, ◌^◌, ◌==◌, Bool, true, false, List, [], ◌∷◌, ◌++◌, map, Bytes, codes,
  cut_suffix, Option, none, some, Result, ok, err, ltb, add64, mul64, if◌then◌else◌, ℤ, pos, negsuc,
}
use memaudit.Spool.Disk.{Segment, remove}

abbrev pub default_min_backoff : ℕ
default_min_backoff = 1000000000

abbrev pub default_max_backoff : ℕ
default_max_backoff = 300 * 1000000000

pub record Shipper : Type 0 where
  pub min_backoff : ℕ
  pub max_backoff : ℕ
  pub backoff : ℕ

abbrev pub positive_or : ℕ → ℤ → ℕ
positive_or d (pos zero) = d
positive_or d (pos (suc n)) = suc n
positive_or d (negsuc n) = d

-- `New`, from the configured bounds.
abbrev pub new : ℤ → ℤ → Shipper
new min max = record {
  min_backoff = positive_or default_min_backoff min;
  max_backoff = positive_or default_max_backoff max;
  backoff = positive_or default_min_backoff min;
}

-- `a > b` on `int64`.
abbrev pub gt_int64 : ℕ → ℕ → Bool
gt_int64 a b = ltb (add64 b (2 ^ 63)) (add64 a (2 ^ 63))

pub data Response : Type 0 where
  unreachable : Response
  status : ℕ → Response

pub record Attempt : Type 0 where
  pub read_ok : Bool
  pub request_ok : Bool
  pub response : Response
  pub remove_ok : Bool
  pub sleep_ok : Bool

pub data ShipError : Type 0 where
  read_failed request_failed remove_failed rejected : ShipError

-- What `ship` reports: no error, an error that is final, or one that is worth a retry.
pub data Report : Type 0 where
  shipped : Report
  final : ShipError → Report
  retry : Report

-- What happens outside: an answer to a POST, a wait, the removal of a segment.
pub data Event : Type 0 where
  answered : Bytes → ℕ → Event
  slept : ℕ → Event
  removed : Bytes → Event

pub record Attempted : Type 0 where
  pub segments : List Segment
  pub events : List Event
  pub report : Report

-- `os.Remove` of the segment after an answer, with the report for a removal that succeeds.
abbrev pub drop_segment : Bool → Report → Bytes → ℕ → List Segment → Attempted
drop_segment true report name code segs = record {
  segments = remove name segs;
  events = answered name code ∷ removed name ∷ [];
  report = report;
}
drop_segment false report name code segs = record {
  segments = segs;
  events = answered name code ∷ [];
  report = final remove_failed;
}

-- The switch on the status.
unfoldable pub by_class : Bool → Bytes → ℕ → List Segment → Attempted
by_class remove_ok name code segs =
    if code / 100 == 2
    then drop_segment remove_ok shipped name code segs
    else if code / 100 == 4
    then drop_segment remove_ok (final rejected) name code segs
    else record { segments = segs; events = answered name code ∷ []; report = retry }

abbrev pub respond : Response → Bool → Bytes → List Segment → Attempted
respond unreachable remove_ok name segs = record { segments = segs; events = []; report = retry }
respond (status code) remove_ok name segs = by_class remove_ok name code segs

unfoldable pub ship : Attempt → Bytes → List Segment → Attempted
ship a name segs =
    if a.read_ok
    then if a.request_ok
      then respond a.response a.remove_ok name segs
      else record { segments = segs; events = []; report = final request_failed }
    else record { segments = segs; events = []; report = final read_failed }

-- The `X-Batch-Id` of a segment.
abbrev pub batch_id : Bytes → Bytes
batch_id name = elim (cut_suffix name (codes ".jsonl.zst")) [ none ↦ name | some base ↦ base ]

-- The wait doubles, up to the bound.
abbrev pub next_backoff : Shipper → Shipper
next_backoff s =
    let doubled = mul64 s.backoff 2 in
    record s { backoff = if gt_int64 doubled s.max_backoff then s.max_backoff else doubled }

abbrev pub reset_backoff : Shipper → Shipper
reset_backoff s = record s { backoff = s.min_backoff }

-- How a loop ends; `undecided` is the model's: the argument lists too few attempts.
pub data End : Type 0 where
  returned : End
  cancelled : End
  list_failed : End
  undecided : End

pub record Shipping : Type 0 where
  pub shipper : Shipper
  pub segments : List Segment
  pub events : List Event

-- The events `es` come before those of a later part of the loop.
abbrev pub after : List Event → Shipping × End → Shipping × End
after es (x, end) = (record x { events = es ++ x.events }, end)

-- What follows an attempt by its report: the loop returns, or waits and goes on as `later`.
abbrev pub conclude : Report → Bool → Attempted → Shipper → Shipping × End → Shipping × End
conclude shipped sleep_ok tried s later = (
  record { shipper = reset_backoff s; segments = tried.segments; events = tried.events },
  returned,
)
conclude (final e) sleep_ok tried s later = (
  record { shipper = reset_backoff s; segments = tried.segments; events = tried.events },
  returned,
)
conclude retry true tried s later = after (tried.events ++ slept s.backoff ∷ []) later
conclude retry false tried s later = (
  record { shipper = s; segments = tried.segments; events = tried.events ++ slept s.backoff ∷ [] },
  cancelled,
)

unfoldable pub ship_with_retry : List Attempt → Bytes → Shipper → List Segment → Shipping × End
ship_with_retry [] name s segs = (record { shipper = s; segments = segs; events = [] }, undecided)
ship_with_retry (a ∷ attempts) name s segs =
    let tried = ship a name segs in
    conclude tried.report a.sleep_ok tried s
      (ship_with_retry attempts name (next_backoff s) tried.segments)

abbrev pub then_ship : Shipping × End → (Shipper → List Segment → Shipping × End) → Shipping × End
then_ship (x, returned) k = after x.events (k x.shipper x.segments)
then_ship (x, cancelled) k = (x, cancelled)
then_ship (x, list_failed) k = (x, list_failed)
then_ship (x, undecided) k = (x, undecided)

-- The inner loop of `Run`, over the listed names.
unfoldable pub ship_each :
    (Bytes → List Attempt) → List Bytes → Shipper → List Segment → Shipping × End
ship_each attempts [] s segs = (record { shipper = s; segments = segs; events = [] }, returned)
ship_each attempts (name ∷ names) s segs =
    then_ship (ship_with_retry (attempts name) name s segs)
      (λ s' segs'. ship_each attempts names s' segs')

-- One pass of the outer loop: whether the listing succeeds, and the answers for each segment.
pub record Pass : Type 0 where
  pub list_ok : Bool
  pub attempts : Bytes → List Attempt

abbrev pub names : List Segment → List Bytes
names segs = map (λ (t : Segment). t.name) segs

-- A pass over the listed names: with none, `Run` returns.
abbrev pub run_listed :
    (Bytes → List Attempt)
    → List Bytes
    → Shipper
    → List Segment
    → (Shipper → List Segment → Shipping × End)
    → Shipping × End
run_listed attempts [] s segs k = (record { shipper = s; segments = segs; events = [] }, returned)
run_listed attempts (n ∷ ns) s segs k = then_ship (ship_each attempts (n ∷ ns) s segs) k

unfoldable pub run : List Pass → Shipper → List Segment → Shipping × End
run [] s segs = (record { shipper = s; segments = segs; events = [] }, undecided)
run (p ∷ passes) s segs =
    if p.list_ok
    then run_listed p.attempts (names segs) s segs (λ s' segs'. run passes s' segs')
    else (record { shipper = s; segments = segs; events = [] }, list_failed)
