-- ===== src/Agent/Shutdown/Delivery.antt =====
-- The last act of the agent: the closing of the spool and the final drain.
use memaudit.Base.{◌≡◌, true, [], Bytes, some, ok}
use memaudit.Model.{Envelope}
use memaudit.Spool.State.{Spool}
use memaudit.Spool.Cap.{Encoders}
use memaudit.Spool.Ops.{RotateCalls, close}
use memaudit.Spool.Rotation.{contents, log}
use memaudit.Ship as Ship
use memaudit.Ship.{Attempt}

module _ (compress decompress : Bytes → Bytes)
    (decompress-compress : (b : Bytes) → decompress (compress b) ≡ b) (enc : Encoders)
    (encode : Envelope → Bytes) (encodes : (e : Envelope) → enc.marshal e ≡ some (encode e)) where
  -- The spool is closed with everything that it held, and its segments hold all of it.
  pub record Flushed (c : RotateCalls) (s s' : Spool) : Type 0 where
    pub closed_ok : close compress enc c true s ≡ (s', ok tt)
    pub all_published :
        contents compress decompress decompress-compress s'.disk.segments
        ≡ log compress decompress decompress-compress s
    pub nothing_active : s'.disk.active ≡ []
