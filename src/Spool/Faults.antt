-- ===== src/Spool/Faults.antt =====
-- What a rotation leaves when a call fails at any point, and what a spool whose handle is closed does.
use memaudit.Base.{
  ℕ, suc, ◌≡◌, ◌⊎◌, inl, inr, refl, ap, subst, ◌∙◌, Bool, true, false, List, [], ◌∷◌, Bytes, ok,
  err, Option, none, some, arith,
}
use memaudit.Model.{Envelope}
use memaudit.Spool.Disk.{publish}
use memaudit.Spool.State.{Spool, SpoolError, Outcome, Append, append, append_encoded, handle_closed}
use memaudit.Spool.Cap.{Encoders}
use memaudit.Spool.Ops.{
  RotateCalls, WriteCalls, guard_call, closed, publish_active, rotate_active, rotate, rotate_old,
  write, segment_name,
}

module _ (compress : Bytes → Bytes) where
  -- Before the rename an error is returned, nothing is published, and the active file keeps its data;
  -- from the rename on the whole active file is one new segment.
  pub data IsAtomic (ulid : Bytes) (s : Spool) : Outcome → Type 0 where
    untouched :
        {s' : Spool} {e : SpoolError}
        → s'.disk.active ≡ s.disk.active
        → s'.disk.segments ≡ s.disk.segments
        → IsAtomic ulid s (s', err e)
    published :
        {o : Outcome}
        → (o.0.disk.segments
            ≡ publish
                (record { name = segment_name ulid; content = compress s.disk.active })
                s.disk.segments)
        → IsAtomic ulid s o

  IsAtomic-guard_call :
      (b : Bool) {ulid : Bytes} {e : SpoolError} {s s' : Spool} {o : Outcome}
      → IsAtomic ulid s (s', err e)
      → IsAtomic ulid s o
      → IsAtomic ulid s (guard_call b e s' o)
  unfolding guard_call
  IsAtomic-guard_call true p q = q
  IsAtomic-guard_call false p q = p

  publish_active-IsAtomic :
      (c : RotateCalls) (s : Spool) → IsAtomic c.ulid s (publish_active compress c (closed s))
  unfolding publish_active
  publish_active-IsAtomic c s = IsAtomic-guard_call c.create_ok (untouched refl refl) (
      IsAtomic-guard_call c.compress_ok (untouched refl refl) (
        IsAtomic-guard_call c.segment_sync_ok (untouched refl refl) (
          IsAtomic-guard_call c.rename_ok (untouched refl refl)
            (IsAtomic-guard_call c.reopen_ok (published refl) (published refl)))))

  -- Wherever a rotation stops, `Segments` lists what it listed before and the active file still has its
  -- data, with an error returned, or it also lists one new segment, with the whole of the active file
  -- compressed; a part of it is never listed.
  pub rotate_active-IsAtomic :
      (c : RotateCalls) (s : Spool) → IsAtomic c.ulid s (rotate_active compress c s)
  unfolding rotate_active
  rotate_active-IsAtomic c s = IsAtomic-guard_call s.handle_open (untouched refl refl) (
      IsAtomic-guard_call c.sync_ok (untouched refl refl) (
        IsAtomic-guard_call c.close_ok (untouched refl refl)
          (IsAtomic-guard_call c.read_ok (untouched refl refl) (publish_active-IsAtomic c s))))

  -- A rotation that fails with its handle open, past the `Close`, leaves the handle closed.
  pub rotate_active_err-closed :
      (c : RotateCalls) (s : Spool)
      → s.handle_open ≡ true
      → c.sync_ok ≡ true
      → (e : SpoolError) → (rotate_active compress c s).1 ≡ err e
      → (rotate_active compress c s).0.handle_open ≡ false
  unfolding rotate_active publish_active guard_call
  rotate_active_err-closed c s o y e h = ground arith

  module _ (enc : Encoders) where
    rotate-closed :
        (c : RotateCalls) (s : Spool)
        → s.handle_open ≡ false
        → rotate compress enc c s ≡ (s, err handle_closed)
    unfolding rotate rotate_active guard_call
    rotate-closed c s o = rw o refl

    append_encoded-closed :
        (a : Append) (l : Option Bytes) (s : Spool)
        → s.handle_open ≡ false
        → (e : SpoolError) × (append_encoded a l s ≡ (s, err e))
    unfolding append_encoded append
    append_encoded-closed a none s o = (_, refl)
    append_encoded-closed a (some b) s o = (handle_closed, rw o refl)

    rotate_old-closed :
        (c : WriteCalls compress enc) (s : Spool)
        → s.handle_open ≡ false
        → (rotate_old compress enc c s ≡ (s, ok tt))
          ⊎ (rotate_old compress enc c s ≡ (s, err handle_closed))
    unfolding rotate_old
    rotate_old-closed c s o = ground (arith, rotate-closed c.aged s o)

    write-closed :
        (c : WriteCalls compress enc) (e : Envelope) (s : Spool)
        → s.handle_open ≡ false
        → (x : SpoolError) × (write compress enc c e s ≡ (s, err x))
    unfolding write
    write-closed c e s o = elim (rotate_old-closed c s o) [
      | inr r ↦ (handle_closed, rw r refl)
      | inl r ↦
          let (x, refused) = append_encoded-closed c.line (enc.marshal e) s o in
          (x, rw (r, refused) refl)
    ]

    abbrev counted : Outcome → (Spool → Spool × ℕ) → Spool × ℕ
    counted (s, ok u) k = let (s', n) = k s in (s', suc n)
    counted (s, err x) k = k s

    -- Writes one after another, each whatever the one before returned, and how many had no error.
    abbrev pub write_all : List (WriteCalls compress enc × Envelope) → Spool → Spool × ℕ
    write_all [] s = (s, 0)
    write_all ((c, e) ∷ rest) s = counted (write compress enc c e s) (λ s'. write_all rest s')

    -- A rotation of an open spool that fails between a successful `Sync` and the call of `enforceCap`
    -- disables the spool: every later `Write`, whatever the system calls answer then, returns an error
    -- and changes nothing.
    pub rotate_active_err-write_all :
        (c : RotateCalls) (s s' : Spool) (x : SpoolError)
        → s.handle_open ≡ true
        → c.sync_ok ≡ true
        → rotate_active compress c s ≡ (s', err x)
        → (writes : List (WriteCalls compress enc × Envelope)) → write_all writes s' ≡ (s', 0)
    rotate_active_err-write_all c s s' x o y h writes = all_refused writes s' (
        subst (λ (r : Outcome). r.0.handle_open ≡ false) h
          (rotate_active_err-closed c s o y x (ap (λ (r : Outcome). r.1) h)))
      where
        all_refused :
            (writes : List (WriteCalls compress enc × Envelope)) (t : Spool)
            → t.handle_open ≡ false
            → write_all writes t ≡ (t, 0)
        all_refused [] t closed = refl
        all_refused ((d, e) ∷ rest) t closed =
            let (z, refused) = write-closed d e t closed in
            ap (λ (o : Outcome). counted o (λ s''. write_all rest s'')) refused
            ∙ all_refused rest t closed
