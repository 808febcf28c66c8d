-- ===== src/Spool/Ops.antt =====
-- internal/spool/spool.go: `Open`, `Write`, `rotate`, `Close` and `Segments`. Each operation takes the
-- answers of its system calls; `compress` is the zstd encoder, which is not part of the repository.
use memaudit.Base.{
  ℕ, zero, suc, ◌+◌, ◌*◌, Bool, true, false, List, [], ◌∷◌, ◌++◌, Bytes, Option, none, some, Result,
  ok, err, leb, not, sort, cut_suffix, ltb, length, if◌then◌else◌, codes, ℤ, pos, negsuc,
}
use memaudit.Model.{Envelope}
use memaudit.Spool.Disk.{Segment, Disk, bytes_lt, publish, remove}
use memaudit.Spool.State.{
  Spool, SpoolError, Outcome, Append, append_encoded, handle_closed, sync_failed, close_failed,
  read_failed, create_failed, compress_failed, rename_failed, reopen_failed, list_failed,
  remove_failed, stat_failed,
}
use memaudit.Spool.Cap.{Round, Encoders, enforce_cap}

-- The defaults; ages are in nanoseconds, as `time.Duration` is.
abbrev pub default_rotate_bytes : ℕ
default_rotate_bytes = 8 * 1024 * 1024

abbrev pub default_rotate_age : ℕ
default_rotate_age = 60 * 1000000000

abbrev pub default_max_bytes : ℕ
default_max_bytes = 2 * 1024 * 1024 * 1024

pub record Options : Type 0 where
  pub rotate_bytes : ℤ
  pub rotate_age : ℤ
  pub max_bytes : ℤ
  pub site : Bytes
  pub host : Bytes

abbrev pub or_default : ℤ → ℕ → ℕ
or_default (pos zero) d = d
or_default (pos (suc n)) d = suc n
or_default (negsuc n) d = d

-- The answers to `Open`: one for each temporary file that is removed; `mtime` is that of the active file.
pub record OpenCalls : Type 0 where
  pub mkdir_ok : Bool
  pub glob_ok : Bool
  pub removals_ok : List Bool
  pub open_ok : Bool
  pub stat_ok : Bool
  pub now : ℕ
  pub mtime : ℕ

-- The temporary files that are left, and whether all are gone.
unfoldable pub remove_tmps : List Bool → List Segment → List Segment × Bool
remove_tmps removals [] = ([], true)
remove_tmps [] (t ∷ tmps) = (t ∷ tmps, false)
remove_tmps (r ∷ removals) (t ∷ tmps) =
    let rest = remove_tmps removals tmps in if r then rest else (t ∷ tmps, false)

abbrev pub opened : Options → OpenCalls → Disk → Spool
opened o c d = record {
  rotate_bytes = or_default o.rotate_bytes default_rotate_bytes;
  rotate_age = or_default o.rotate_age default_rotate_age;
  max_bytes = or_default o.max_bytes default_max_bytes;
  site = o.site;
  host = o.host;
  handle_open = true;
  active_size = length d.active;
  active_start = if ltb 0 (length d.active) then c.mtime else c.now;
  disk = d;
}

-- `Open`: the directory it leaves, with the spool or an error.
unfoldable pub open_spool : Options → OpenCalls → Disk → Disk × Result SpoolError Spool
open_spool o c d =
    let (left, all_gone) = remove_tmps c.removals_ok d.tmps in
    let swept : Disk = record d { tmps = left } in
    if c.mkdir_ok
    then if c.glob_ok
      then if all_gone
        then if c.open_ok
          then if c.stat_ok then (swept, ok (opened o c swept)) else (swept, err stat_failed)
          else (swept, err reopen_failed)
        else (swept, err remove_failed)
      else (d, err list_failed)
    else (d, err create_failed)

-- The answers to one rotation. `partial` is what the temporary file holds where the compression stops.
pub record RotateCalls : Type 0 where
  pub sync_ok : Bool
  pub close_ok : Bool
  pub read_ok : Bool
  pub ulid : Bytes
  pub create_ok : Bool
  pub compress_ok : Bool
  pub partial : Bytes
  pub segment_sync_ok : Bool
  pub rename_ok : Bool
  pub reopen_ok : Bool
  pub now : ℕ
  pub rounds : List Round

abbrev pub segment_name : Bytes → Bytes
segment_name ulid = ulid ++ codes ".jsonl.zst"

abbrev pub tmp_name : Bytes → Bytes
tmp_name ulid = segment_name ulid ++ codes ".tmp"

abbrev pub closed : Spool → Spool
closed s = record s { handle_open = false }

abbrev pub with_tmp : Bytes → Bytes → Spool → Spool
with_tmp ulid content s = record s {
  disk = record s.disk {
    tmps = publish (record { name = tmp_name ulid; content = content }) s.disk.tmps;
  };
}

-- The rename: the temporary file is gone, the segment is there.
abbrev pub renamed : Bytes → Bytes → Spool → Spool
renamed ulid content s = record s {
  disk = record s.disk {
    tmps = remove (tmp_name ulid) s.disk.tmps;
    segments = publish (record { name = segment_name ulid; content = content }) s.disk.segments;
  };
}

abbrev pub reopened : ℕ → Spool → Spool
reopened now s = record s {
  handle_open = true;
  active_size = 0;
  active_start = now;
  disk = record s.disk { active = [] };
}

-- `and_then` is the sequence of two steps, the second where the first has no error.
abbrev pub and_then : Outcome → (Spool → Outcome) → Outcome
and_then (s, ok u) k = k s
and_then (s, err e) k = (s, err e)

unfoldable pub guard_call : Bool → SpoolError → Spool → Outcome → Outcome
guard_call true e s o = o
guard_call false e s o = (s, err e)

module _ (compress : Bytes → Bytes) where
  -- `rotate` from the creation of the temporary file to the empty active file.
  unfoldable pub publish_active : RotateCalls → Spool → Outcome
  publish_active c s =
      let content : Bytes = compress s.disk.active in
      let written : Spool = with_tmp c.ulid content s in
      let named : Spool = renamed c.ulid content written in
      guard_call c.create_ok create_failed s (
        guard_call c.compress_ok compress_failed (with_tmp c.ulid c.partial s) (
          guard_call c.segment_sync_ok sync_failed written (
            guard_call c.rename_ok rename_failed written
              (guard_call c.reopen_ok reopen_failed named (reopened c.now named, ok tt)))))

  -- `rotate` up to the call of `enforceCap`.
  unfoldable pub rotate_active : RotateCalls → Spool → Outcome
  rotate_active c s = guard_call s.handle_open handle_closed s (
      guard_call c.sync_ok sync_failed s (
        guard_call c.close_ok close_failed (closed s)
          (guard_call c.read_ok read_failed (closed s) (publish_active c (closed s)))))

  module _ (enc : Encoders) where
    unfoldable pub rotate : RotateCalls → Spool → Outcome
    rotate c s = and_then (rotate_active c s) (λ s'. enforce_cap enc c.rounds s')

    -- The answers to one `Write`: it can rotate twice.
    pub record WriteCalls : Type 0 where
      pub now : ℕ
      pub aged : RotateCalls
      pub line : Append
      pub full : RotateCalls

    abbrev pub is_old : ℕ → Spool → Bool
    is_old now s = if ltb 0 s.active_size then leb (s.active_start + s.rotate_age) now else false

    unfoldable pub rotate_old : WriteCalls → Spool → Outcome
    rotate_old c s = if is_old c.now s then rotate c.aged s else (s, ok tt)

    unfoldable pub rotate_full : WriteCalls → Spool → Outcome
    rotate_full c s = if leb s.rotate_bytes s.active_size then rotate c.full s else (s, ok tt)

    unfoldable pub write : WriteCalls → Envelope → Spool → Outcome
    write c e s =
        and_then (rotate_old c s)
          (λ s₁. and_then (append_encoded c.line (enc.marshal e) s₁) (λ s₂. rotate_full c s₂))

    abbrev pub close_handle : Bool → Spool → Outcome
    close_handle close_ok s =
        guard_call s.handle_open handle_closed s
          (guard_call close_ok close_failed (closed s) (closed s, ok tt))

    unfoldable pub close : RotateCalls → Bool → Spool → Outcome
    close c close_ok s =
        if ltb 0 s.active_size
        then and_then (rotate c s) (λ s'. close_handle close_ok s')
        else close_handle close_ok s

-- The order of `sort.Strings`.
abbrev pub names_le : Bytes → Bytes → Bool
names_le a b = not (bytes_lt b a)

abbrev pub is_segment : Bytes → Bool
is_segment name = elim (cut_suffix name (codes ".jsonl.zst")) [ none ↦ false | some base ↦ true ]

-- The loop over the entries.
unfoldable pub segment_entries : List Bytes → List Bytes
segment_entries [] = []
segment_entries (name ∷ entries) =
    let rest = segment_entries entries in if is_segment name then name ∷ rest else rest

-- `Segments`, from the names that `os.ReadDir` gives; the directory before each name is left out.
unfoldable pub segments : Option (List Bytes) → Result SpoolError (List Bytes)
segments none = err list_failed
segments (some entries) = ok (sort names_le (segment_entries entries))
