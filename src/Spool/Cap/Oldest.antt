-- ===== src/Spool/Cap/Oldest.antt =====
-- What `enforceCap` drops where no system call fails and the shipper takes nothing meanwhile.
use memaudit.Base.{
  ℕ, ◌+◌, ◌≤◌, ◌<◌, ◌≡◌, refl, sym, subst, ◌∙◌, true, List, [], ◌∷◌, ◌++◌, append_assoc, append-nil,
  Bytes, ok, some, leb, length, length-append, arith, Bool-cases, inl, inr, leb→le, leb→gt,
}
use memaudit.Model.{Envelope}
use memaudit.Spool.Disk.{Segment}
use memaudit.Spool.State.{Spool, all_bytes, append, append_encoded}
use memaudit.Spool.Cap.{
  Answer, done, Round, Encoders, write_warning, warning_envelope, total_size, still_there, continue,
  return, evict, weigh, cap_round, enforce_cap,
}
use memaudit.Spool.Cap.Bound.{sizes}

-- A round in which every call succeeds and finds every segment.
pub record IsQuiet (r : Round) : Type 0 where
  pub listed : r.list_ok ≡ true
  pub found : (name : Bytes) → r.stat name ≡ done
  pub removed : r.removal ≡ done
  pub written : r.warning ≡ all_bytes

abbrev pub AllQuiet : List Round → Type 0
AllQuiet [] = Unit
AllQuiet (r ∷ rounds) = IsQuiet r × AllQuiet rounds

-- From the oldest on, segments are dropped while the rest is over the cap, and no further.
pub data Evicts (cap : ℕ) : List Segment → List Segment → List Segment → Type 0 where
  keep : {segments : List Segment} → sizes segments ≤ cap → Evicts cap segments [] segments
  drop :
      {t : Segment} {segments evicted kept : List Segment}
      → cap < sizes (t ∷ segments)
      → Evicts cap segments evicted kept
      → Evicts cap (t ∷ segments) (t ∷ evicted) kept

module _ (stat : Bytes → Answer) (found : (name : Bytes) → stat name ≡ done) where
  total_size-quiet : (segments : List Segment) → total_size stat segments ≡ ok (sizes segments)
  unfolding total_size
  total_size-quiet [] = refl
  total_size-quiet (t ∷ segments) = ground (arith, found t.name, total_size-quiet segments)

  still_there-quiet : (segments : List Segment) → still_there stat segments ≡ segments
  unfolding still_there
  still_there-quiet [] = refl
  still_there-quiet (t ∷ segments) = ground (arith, found t.name, still_there-quiet segments)

-- An encoder that encodes every envelope: `line` is the text that it gives.
module _ (enc : Encoders) (encode : Envelope → Bytes)
    (encodes : (e : Envelope) → enc.marshal e ≡ some (encode e)) where
  abbrev warning_line : Round → Segment → Bytes → Bytes → Bytes
  warning_line r t site host = encode (warning_envelope enc r t.name site host) ++ 10 ∷ []

  -- One warning for each dropped segment, in the order of the drops.
  abbrev pub warning_lines : List Round → List Segment → Bytes → Bytes → Bytes
  warning_lines [] evicted site host = []
  warning_lines (r ∷ rounds) [] site host = []
  warning_lines (r ∷ rounds) (t ∷ evicted) site host =
      warning_line r t site host ++ warning_lines rounds evicted site host

  abbrev dropped : Round → Segment → List Segment → Spool → Spool
  dropped r t rest s = record s {
    active_size = s.active_size + length (warning_line r t s.site s.host);
    disk = record s.disk {
      active = s.disk.active ++ warning_line r t s.site s.host;
      segments = rest;
    };
  }

  cap_round_empty :
      (r : Round) (s : Spool)
      → IsQuiet r
      → s.disk.segments ≡ []
      → cap_round enc r s ≡ return (s, ok tt)
  unfolding cap_round
  cap_round_empty r s q e = rw (q.listed, e)

  cap_round_fits :
      (r : Round) (t : Segment) (rest : List Segment) (s : Spool)
      → IsQuiet r
      → s.disk.segments ≡ t ∷ rest
      → sizes (t ∷ rest) ≤ s.max_bytes
      → cap_round enc r s ≡ return (s, ok tt)
  unfolding cap_round weigh
  cap_round_fits r t rest s q e fits = ground (
    arith,
    total_size-quiet r.stat q.found (t ∷ rest),
    still_there-quiet r.stat q.found (t ∷ rest),
  )

  cap_round_over :
      (r : Round) (t : Segment) (rest : List Segment) (s : Spool)
      → IsQuiet r
      → s.handle_open ≡ true
      → s.disk.segments ≡ t ∷ rest
      → s.max_bytes < sizes (t ∷ rest)
      → cap_round enc r s ≡ continue (dropped r t rest s)
  unfolding cap_round weigh evict write_warning append_encoded append
  cap_round_over r t rest s q o e over = ground (
    arith,
    total_size-quiet r.stat q.found (t ∷ rest),
    still_there-quiet r.stat q.found rest,
    q.found t.name,
    encodes (warning_envelope enc r t.name s.site s.host),
  )

  -- What the loop has done: the segments it dropped, the state it leaves.
  pub record Dropped (rounds : List Round) (s s' : Spool) (evicted : List Segment) : Type 0 where
    pub by_age : Evicts s.max_bytes s.disk.segments evicted s'.disk.segments
    pub warned : s'.disk.active ≡ s.disk.active ++ warning_lines rounds evicted s.site s.host
    pub counted :
        s'.active_size ≡ s.active_size + length (warning_lines rounds evicted s.site s.host)
    pub frame : s' ≡ record s { active_size = s'.active_size; disk = s'.disk }

  nothing-Dropped :
      (rounds : List Round) (s : Spool)
      → sizes s.disk.segments ≤ s.max_bytes
      → Dropped rounds s s []
  nothing-Dropped [] s fits = record {
    by_age = keep fits;
    warned = sym (append-nil s.disk.active);
    counted = omega arith;
    frame = refl;
  }
  nothing-Dropped (r ∷ rounds) s fits = record {
    by_age = keep fits;
    warned = sym (append-nil s.disk.active);
    counted = omega arith;
    frame = refl;
  }

  -- With no failure and nothing taken by the shipper, `enforceCap` succeeds. It drops segments from
  -- the oldest on, only while the rest is over the cap, and the active file ends in one warning for
  -- each dropped segment.
  pub enforce_cap-Dropped :
      (rounds : List Round) (segments : List Segment) (s : Spool)
      → AllQuiet rounds
      → s.handle_open ≡ true
      → s.disk.segments ≡ segments
      → length segments < length rounds
      → (evicted : List Segment) × (s' : Spool) × (enforce_cap enc rounds s ≡ (s', ok tt))
        × Dropped rounds s s' evicted
  unfolding enforce_cap
  enforce_cap-Dropped [] segments s q o e h = absurd (omega arith)
  enforce_cap-Dropped (r ∷ rounds) [] s q o e h = (
    [],
    s,
    rw (cap_round_empty r s q.0 e, enforce_cap) refl,
    nothing-Dropped (r ∷ rounds) s (subst (λ l. sizes l ≤ s.max_bytes) (sym e) (omega arith)),
  )
  enforce_cap-Dropped (r ∷ rounds) (t ∷ rest) s q o e h =
      elim (Bool-cases (leb (sizes (t ∷ rest)) s.max_bytes)) [
        | inl within ↦
            let fits : sizes (t ∷ rest) ≤ s.max_bytes = leb→le _ _ within in
            (
              [],
              s,
              rw (cap_round_fits r t rest s q.0 e fits, enforce_cap) refl,
              nothing-Dropped (r ∷ rounds) s (subst (λ l. sizes l ≤ s.max_bytes) (sym e) fits),
            )
        | inr beyond ↦
            let over : s.max_bytes < sizes (t ∷ rest) = leb→gt _ _ beyond in
            let (evicted, s', returned, d) =
              enforce_cap-Dropped rounds rest (dropped r t rest s) q.1 o refl (omega arith) in
            (
              t ∷ evicted,
              s',
              rw (cap_round_over r t rest s q.0 o e over, enforce_cap) returned,
              record {
                by_age =
                    subst (λ l. Evicts s.max_bytes l (t ∷ evicted) s'.disk.segments) (sym e)
                      (drop over d.by_age);
                warned =
                    d.warned
                    ∙ append_assoc s.disk.active (warning_line r t s.site s.host)
                        (warning_lines rounds evicted s.site s.host);
                counted = omega (
                  arith,
                  d.counted,
                  length-append (warning_line r t s.site s.host)
                      (warning_lines rounds evicted s.site s.host),
                );
                frame = d.frame;
              },
            )
      ]
