-- ===== src/Spool/Cap.antt =====
-- internal/spool/spool.go: `enforceCap` and `writeWarning`. A `Round` holds what one iteration meets:
-- the shipper runs beside it and may have removed any segment.
pub mod Bound
pub mod Oldest
use memaudit.Base.{
  ℕ, ◌+◌, Bool, true, false, List, [], ◌∷◌, ◌++◌, Bytes, Result, ok, err, map_err, Option, none,
  some, ltb, leb, length, if◌then◌else◌, String, codes,
}
use memaudit.Model.{Envelope}
use memaudit.Spool.Disk.{Segment, Disk}
use memaudit.Spool.State.{
  Spool, SpoolError, Outcome, Append, append_encoded, list_failed, stat_failed, remove_failed,
  out_of_rounds,
}

-- What `os.Stat` and `os.Remove` answer: `vanished` is the error that the file does not exist.
pub data Answer : Type 0 where
  done vanished failed : Answer

pub record Round : Type 0 where
  pub list_ok : Bool
  pub stat : Bytes → Answer
  pub removal : Answer
  pub warning : Append
  pub now : ℕ

-- The JSON encoders: of an envelope, and of the warning's payload for a segment name.
pub record Encoders : Type 0 where
  pub marshal : Envelope → Option Bytes
  pub warning_payload : Bytes → Bytes

abbrev pub warning_envelope : Encoders → Round → Bytes → Bytes → Bytes → Envelope
warning_envelope enc r dropped site host = record {
  ts = r.now;
  site = site;
  host = host;
  typ = codes "spool_warning";
  schema = 1;
  payload = enc.warning_payload dropped;
}

unfoldable pub write_warning : Encoders → Round → Bytes → Spool → Outcome
write_warning enc r dropped s =
    append_encoded r.warning (enc.marshal (warning_envelope enc r dropped s.site s.host)) s

-- The sum over the segments that are still there.
unfoldable pub total_size : (Bytes → Answer) → List Segment → Result SpoolError ℕ
total_size stat [] = ok 0
total_size stat (t ∷ segments) =
    let rest = total_size stat segments in
    elim (stat t.name) [
      | done ↦ elim rest [ ok n ↦ ok (length t.content + n) | err e ↦ err e ]
      | vanished ↦ rest
      | failed ↦ err stat_failed
    ]

-- The listing without the segments that the shipper has removed.
unfoldable pub still_there : (Bytes → Answer) → List Segment → List Segment
still_there stat [] = []
still_there stat (t ∷ segments) =
    let rest = still_there stat segments in
    elim (stat t.name) [ done ↦ t ∷ rest | vanished ↦ rest | failed ↦ t ∷ rest ]

abbrev pub with_segments : Spool → List Segment → Spool
with_segments s segments = record s { disk = record s.disk { segments = segments } }

-- An iteration of the loop: it goes on from a state, or returns.
pub data Next : Type 0 where
  continue : Spool → Next
  return : Outcome → Next

abbrev pub go_on : Outcome → Next
go_on (s, ok u) = continue s
go_on (s, err e) = return (s, err e)

-- `os.Remove` of a segment that was gone at the `Stat` fails in the same way.
abbrev pub removal_of : Answer → Answer → Answer
removal_of vanished removal = vanished
removal_of done removal = removal
removal_of failed removal = removal

unfoldable pub evict : Encoders → Round → Segment → List Segment → Spool → Next
evict enc r oldest rest s = elim (removal_of (r.stat oldest.name) r.removal) [
  | done ↦ go_on (write_warning enc r oldest.name (with_segments s (still_there r.stat rest)))
  | vanished ↦ continue (with_segments s (still_there r.stat rest))
  | failed ↦ return (with_segments s (still_there r.stat (oldest ∷ rest)), err remove_failed)
]

unfoldable pub weigh : Encoders → Round → Segment → List Segment → Spool → Next
weigh enc r oldest rest s = elim (total_size r.stat (oldest ∷ rest)) [
  | err e ↦ return (with_segments s (still_there r.stat (oldest ∷ rest)), err e)
  | ok total ↦
      if leb total s.max_bytes
      then return (with_segments s (still_there r.stat (oldest ∷ rest)), ok tt)
      else evict enc r oldest rest s
]

abbrev pub cap_listed : Encoders → Round → List Segment → Spool → Next
cap_listed enc r [] s = return (s, ok tt)
cap_listed enc r (oldest ∷ rest) s = weigh enc r oldest rest s

unfoldable pub cap_round : Encoders → Round → Spool → Next
cap_round enc r s =
    if r.list_ok then cap_listed enc r s.disk.segments s else return (s, err list_failed)

unfoldable pub enforce_cap : Encoders → List Round → Spool → Outcome
enforce_cap enc [] s = (s, err out_of_rounds)
enforce_cap enc (r ∷ rounds) s = elim (cap_round enc r s) [
  | continue s' ↦ enforce_cap enc rounds s'
  | return o ↦ o
]
