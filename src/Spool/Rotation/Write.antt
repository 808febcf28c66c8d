-- ===== src/Spool/Rotation/Write.antt =====
-- `Write` appends one line to what the spool holds.
use memaudit.Base.{◌+◌, ◌≤◌, ◌≡◌, true, List, [], ◌∷◌, ◌++◌, Bytes, some, length}
use memaudit.Model.{Envelope}
use memaudit.Spool.Disk.{Segment, bytes_lt}
use memaudit.Spool.State.{Spool}
use memaudit.Spool.Cap.{Encoders}
use memaudit.Spool.Ops.{RotateCalls, segment_name}
use memaudit.Spool.Rotation.{IsFresh, contents, log, warnings}

module _ (compress decompress : Bytes → Bytes)
    (decompress-compress : (b : Bytes) → decompress (compress b) ≡ b) (enc : Encoders)
    (encode : Envelope → Bytes) (encodes : (e : Envelope) → enc.marshal e ≡ some (encode e)) where
  abbrev pub held : List Segment → Bytes
  held = contents compress decompress decompress-compress

  abbrev pub lines : Spool → Bytes
  lines = log compress decompress decompress-compress

  abbrev pub warned : RotateCalls → List Segment → Spool → Bytes
  warned c evicted s =
      warnings compress decompress decompress-compress enc encode encodes c.rounds evicted s.site
        s.host

  -- A part of `Write` that may have rotated.
  record Step (c : RotateCalls) (s s' : Spool) (evicted : List Segment) : Type 0 where
    conserved : held evicted ++ lines s' ≡ lines s ++ warned c evicted s
    same_site : s'.site ≡ s.site
    same_host : s'.host ≡ s.host
    still_open : s'.handle_open ≡ true
    few : length s'.disk.segments ≤ length s.disk.segments + 1
    names :
        (later : Bytes)
        → bytes_lt (segment_name c.ulid) (segment_name later) ≡ true
        → IsFresh later s.disk.segments
        → IsFresh later s'.disk.segments

  abbrev pub line : Envelope → Bytes
  line e = encode e ++ 10 ∷ []

  abbrev appended : Envelope → Spool → Spool
  appended e s = record s {
    active_size = s.active_size + length (line e);
    disk = record s.disk { active = s.disk.active ++ line e };
  }
