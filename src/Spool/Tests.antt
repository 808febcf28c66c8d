-- ===== src/Spool/Tests.antt =====
-- Tests of internal/spool, and the theorems at concrete inputs.
use mathlib.Core.List.{Perm}
use mathlib.Core.List.Perm
use memaudit.Base.{◌≡◌, refl, true, false, List, [], ◌∷◌, some, Bytes, codes, ok, err, arith}
use memaudit.Model.{Envelope}
use memaudit.Spool.Disk.{Segment, Disk}
use memaudit.Spool.Listing.{IsStore, dir_names, segments-names}
use memaudit.Spool.Store.{StaysStore}
use memaudit.Spool.Store.Write.{write-StaysStore}
use memaudit.Spool.State.{Spool, all_bytes, read_failed}
use memaudit.Spool.Cap.{done, vanished, Round, Encoders, enforce_cap}
use memaudit.Spool.Cap.Bound.{IsSettled, enforce_cap-IsSettled}
use memaudit.Spool.Cap.Oldest.{AllQuiet, IsQuiet, Dropped, enforce_cap-Dropped}
use memaudit.Spool.Ops.{RotateCalls, WriteCalls, guard_call, segments, rotate_active, rotate, write}
use memaudit.Spool.Faults.{IsAtomic, rotate_active-IsAtomic, write_all, rotate_active_err-write_all}
use memaudit.Spool.Rotation.{IsSmooth, Rotated, rotate-Rotated}
use memaudit.Spool.Rotation.Write.{line}

-- A frame of one byte stands for the compression, the type of an envelope for its encoding.
abbrev frame : Bytes → Bytes
frame b = 40 ∷ b

abbrev unframe : Bytes → Bytes
unframe [] = []
unframe (c ∷ b) = b

abbrev encode : Envelope → Bytes
encode e = e.typ

abbrev encoders : Encoders
encoders = record { marshal = λ e. some (encode e); warning_payload = λ name. name }

abbrev segment_a : Segment
segment_a = record { name = codes "a.jsonl.zst"; content = frame (codes "first") }

abbrev segment_b : Segment
segment_b = record { name = codes "b.jsonl.zst"; content = frame (codes "second") }

-- Two segments of 6 and 7 bytes under a cap of 12 bytes.
abbrev two_segments : Spool
two_segments = record {
  rotate_bytes = 8;
  rotate_age = 60;
  max_bytes = 12;
  site = codes "lab";
  host = codes "h1";
  handle_open = true;
  active_size = 3;
  active_start = 100;
  disk = record { active = codes "abc"; segments = segment_a ∷ segment_b ∷ []; tmps = [] };
}

abbrev quiet_round : Round
quiet_round = record {
  list_ok = true;
  stat = λ name. done;
  removal = done;
  warning = all_bytes;
  now = 170;
}

-- The shipper takes the oldest segment between the listing and the removal.
abbrev raced_round : Round
raced_round = record {
  list_ok = true;
  stat = λ name. done;
  removal = vanished;
  warning = all_bytes;
  now = 170;
}

enforce_cap-IsSettled_example :
    IsSettled 12 (enforce_cap encoders (raced_round ∷ quiet_round ∷ quiet_round ∷ []) two_segments)
enforce_cap-IsSettled_example =
    enforce_cap-IsSettled encoders (raced_round ∷ quiet_round ∷ quiet_round ∷ []) two_segments
      (omega arith)

abbrev quiet_rounds : List Round
quiet_rounds = quiet_round ∷ quiet_round ∷ quiet_round ∷ quiet_round ∷ quiet_round ∷ []

enforce_cap-Dropped_example :
    (evicted : List Segment) × (s' : Spool) × (enforce_cap encoders
        (quiet_round ∷ quiet_round ∷ quiet_round ∷ [])
        two_segments
      ≡ (s', ok tt))
    × Dropped encoders encode
        (λ e. refl)
        (quiet_round ∷ quiet_round ∷ quiet_round ∷ [])
        two_segments
        s'
        evicted
enforce_cap-Dropped_example =
    enforce_cap-Dropped encoders encode (λ e. refl) (quiet_round ∷ quiet_round ∷ quiet_round ∷ [])
      (segment_a ∷ segment_b ∷ []) two_segments (all_quiet, (all_quiet, (all_quiet, tt))) refl refl
      (omega arith)
  where
    all_quiet : IsQuiet quiet_round
    all_quiet = record { listed = refl; found = λ name. refl; removed = refl; written = refl }

-- A temporary file, the active one, and segments out of order.
abbrev busy_dir : Disk
busy_dir = record {
  active = codes "abc";
  segments =
      record { name = codes "a.jsonl.zst"; content = codes "123456" }
      ∷ record { name = codes "b.jsonl.zst"; content = codes "1234567" }
      ∷ [];
  tmps = record { name = codes "c.jsonl.zst.tmp"; content = codes "12" } ∷ [];
}

abbrev out_of_order : List Bytes
out_of_order =
    codes "b.jsonl.zst" ∷ codes "a.jsonl.zst" ∷ codes "active.jsonl" ∷ codes "c.jsonl.zst.tmp" ∷ []

busy_dir-IsStore : IsStore busy_dir
busy_dir-IsStore = record {
  ascending = ((refl, tt), (tt, tt));
  suffixed = (refl, (refl, tt));
  apart = (refl, tt);
}

out_of_order_perm : Perm out_of_order (dir_names busy_dir)
out_of_order_perm = Perm.trans (Perm.swap _ _ _) (
    Perm.trans (Perm.cons _ (Perm.swap _ _ _)) (
      Perm.trans (Perm.swap _ _ _)
        (Perm.cons _ (Perm.trans (Perm.cons _ (Perm.swap _ _ _)) (Perm.swap _ _ _)))))

segments-names_example :
    segments (some out_of_order) ≡ ok (codes "a.jsonl.zst" ∷ codes "b.jsonl.zst" ∷ [])
segments-names_example = segments-names busy_dir out_of_order busy_dir-IsStore out_of_order_perm

abbrev smooth_calls : Bytes → RotateCalls
smooth_calls ulid = record {
  sync_ok = true;
  close_ok = true;
  read_ok = true;
  ulid = ulid;
  create_ok = true;
  compress_ok = true;
  partial = [];
  segment_sync_ok = true;
  rename_ok = true;
  reopen_ok = true;
  now = 170;
  rounds = quiet_rounds;
}

-- The active file cannot be read back.
abbrev unreadable_calls : RotateCalls
unreadable_calls = record (smooth_calls (codes "c")) { read_ok = false }

rotate_active-IsAtomic_example :
    IsAtomic frame (codes "c") two_segments (rotate_active frame unreadable_calls two_segments)
rotate_active-IsAtomic_example = rotate_active-IsAtomic frame unreadable_calls two_segments

abbrev note : Envelope
note = record {
  ts = 170;
  site = codes "lab";
  host = codes "h1";
  typ = codes "note";
  schema = 1;
  payload = [];
}

abbrev calls : WriteCalls frame encoders
calls = record {
  now = 170;
  aged = smooth_calls (codes "c");
  line = all_bytes;
  full = smooth_calls (codes "d");
}

rotate_active_fails :
    rotate_active frame unreadable_calls two_segments
    ≡ (record two_segments { handle_open = false }, err read_failed)
unfolding rotate_active guard_call
rotate_active_fails = refl

rotate_active_err-write_all_example :
    write_all frame encoders
      ((calls, note) ∷ (calls, note) ∷ [])
      (record two_segments { handle_open = false })
    ≡ (record two_segments { handle_open = false }, 0)
rotate_active_err-write_all_example =
    rotate_active_err-write_all frame encoders unreadable_calls two_segments
      (record two_segments { handle_open = false }) read_failed refl refl rotate_active_fails
      ((calls, note) ∷ (calls, note) ∷ [])

quiet_rounds-AllQuiet : AllQuiet quiet_rounds
quiet_rounds-AllQuiet = (all_quiet, (all_quiet, (all_quiet, (all_quiet, (all_quiet, tt)))))
  where
    all_quiet : IsQuiet quiet_round
    all_quiet = record { listed = refl; found = λ name. refl; removed = refl; written = refl }

smooth_calls-IsSmooth : (ulid : Bytes) → IsSmooth (smooth_calls ulid)
smooth_calls-IsSmooth ulid = record {
  synced = refl;
  closed_ = refl;
  was_read = refl;
  created = refl;
  compressed = refl;
  segment_synced = refl;
  was_renamed = refl;
  was_reopened = refl;
  quiet = quiet_rounds-AllQuiet;
}

rotate-Rotated_example :
    (evicted : List Segment) × (s' : Spool) × (rotate frame encoders
        (smooth_calls (codes "c"))
        two_segments
      ≡ (s', ok tt))
    × Rotated frame unframe
        (λ b. refl)
        encoders
        encode
        (λ e. refl)
        (smooth_calls (codes "c"))
        two_segments
        s'
        evicted
rotate-Rotated_example =
    rotate-Rotated frame unframe (λ b. refl) encoders encode (λ e. refl) (smooth_calls (codes "c"))
      two_segments (refl, (refl, tt)) (smooth_calls-IsSmooth (codes "c")) refl (omega arith)

write-StaysStore_example : StaysStore (write frame encoders calls note two_segments)
write-StaysStore_example =
    write-StaysStore encoders frame calls note two_segments
      (record { ascending = ((refl, tt), (tt, tt)); suffixed = (refl, (refl, tt)); apart = tt })
