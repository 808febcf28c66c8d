-- ===== src/Spool/Cap/Bound.antt =====
-- `enforceCap` ends, and where it succeeds the segments fit the cap, whatever the shipper removes.
use memaudit.Base.{
  ℕ, ◌+◌, ◌≤◌, ◌<◌, ◌≡◌, ◌≢◌, ◌⊎◌, inl, inr, refl, ap, subst, List, [], ◌∷◌, ◌++◌, Bytes, ok, err,
  Option, none, some, leb, length, arith, Bool-cases, Result-cases,
}
use memaudit.Spool.Disk.{Segment}
use memaudit.Spool.State.{Spool, SpoolError, Outcome, Append, append, append_encoded, out_of_rounds}
use memaudit.Spool.Cap.{
  Answer, Round, Encoders, write_warning, warning_envelope, total_size, still_there, with_segments,
  Next, continue, return, go_on, evict, weigh, cap_listed, cap_round, enforce_cap,
}

abbrev pub sizes : List Segment → ℕ
sizes [] = 0
sizes (t ∷ segments) = length t.content + sizes segments

-- Appending to the active file leaves the segments and the cap alone.
pub segments-append :
    (a : Append) (b : Bytes) (s : Spool) → (append a b s).0.disk.segments ≡ s.disk.segments
unfolding append
segments-append a b s = ground arith

pub max_bytes-append :
    (a : Append) (b : Bytes) (s : Spool) → (append a b s).0.max_bytes ≡ s.max_bytes
unfolding append
max_bytes-append a b s = ground arith

pub segments-append_encoded :
    (a : Append) (o : Option Bytes) (s : Spool)
    → (append_encoded a o s).0.disk.segments ≡ s.disk.segments
unfolding append_encoded
segments-append_encoded a none s = refl
segments-append_encoded a (some b) s = segments-append a (b ++ 10 ∷ []) s

pub max_bytes-append_encoded :
    (a : Append) (o : Option Bytes) (s : Spool) → (append_encoded a o s).0.max_bytes ≡ s.max_bytes
unfolding append_encoded
max_bytes-append_encoded a none s = refl
max_bytes-append_encoded a (some b) s = max_bytes-append a (b ++ 10 ∷ []) s

module _ (stat : Bytes → Answer) where
  pub length-still_there :
      (segments : List Segment) → length (still_there stat segments) ≤ length segments
  unfolding still_there
  length-still_there [] = omega arith
  length-still_there (t ∷ segments) = ground (arith, length-still_there segments)

  pub total_size-sizes :
      (segments : List Segment) (total : ℕ)
      → total_size stat segments ≡ ok total
      → sizes (still_there stat segments) ≡ total
  unfolding total_size still_there
  total_size-sizes [] total h = ground arith
  total_size-sizes (t ∷ segments) total h = elim (Result-cases (total_size stat segments)) [
    | inl (n, p) ↦ ground (arith, total_size-sizes segments n)
    | inr (e, p) ↦ absurd (ground arith)
  ]

go_on_continue : (o : Outcome) (s' : Spool) → go_on o ≡ continue s' → o.0 ≡ s'
go_on_continue (s, ok u) s' h = ground arith
go_on_continue (s, err e) s' h = absurd (ground arith)

go_on_return :
    (o : Outcome) (o' : Outcome) → go_on o ≡ return o' → (e : SpoolError) × (o'.1 ≡ err e)
go_on_return (s, ok u) o' h = absurd (ground arith)
go_on_return (s, err e) o' h = (e, ground arith)

-- The state after a round that goes on: fewer segments, the same cap.
abbrev Shrinks : Spool → Spool → Type 0
Shrinks s s' = (length s'.disk.segments < length s.disk.segments) × (s'.max_bytes ≡ s.max_bytes)

module _ (enc : Encoders) (r : Round) where
  evict-Shrinks :
      (oldest : Segment) (rest : List Segment) (s s' : Spool)
      → s.disk.segments ≡ oldest ∷ rest
      → evict enc r oldest rest s ≡ continue s'
      → Shrinks s s'
  unfolding evict write_warning
  evict-Shrinks oldest rest s s' e h =
      let s'' : Spool = with_segments s (still_there r.stat rest) in
      let line : Option Bytes = enc.marshal (warning_envelope enc r oldest.name s.site s.host) in
      ground (
        arith,
        ap length e,
        length-still_there r.stat rest,
        go_on_continue (append_encoded r.warning line s'') s',
        segments-append_encoded r.warning line s'',
        max_bytes-append_encoded r.warning line s'',
      )

  weigh-Shrinks :
      (oldest : Segment) (rest : List Segment) (s s' : Spool)
      → s.disk.segments ≡ oldest ∷ rest
      → weigh enc r oldest rest s ≡ continue s'
      → Shrinks s s'
  unfolding weigh
  weigh-Shrinks oldest rest s s' e h = elim (Result-cases (total_size r.stat (oldest ∷ rest))) [
    | inr (x, p) ↦ absurd (ground arith)
    | inl (total, p) ↦ elim (Bool-cases (leb total s.max_bytes)) [
      | inl fits ↦ absurd (ground arith)
      | inr over ↦ evict-Shrinks oldest rest s s' e (ground arith)
    ]
  ]

  cap_listed-Shrinks :
      (segments : List Segment) (s s' : Spool)
      → s.disk.segments ≡ segments
      → cap_listed enc r segments s ≡ continue s'
      → Shrinks s s'
  cap_listed-Shrinks [] s s' e h = absurd (ground arith)
  cap_listed-Shrinks (oldest ∷ rest) s s' e h = weigh-Shrinks oldest rest s s' e h

  cap_round-Shrinks : (s s' : Spool) → cap_round enc r s ≡ continue s' → Shrinks s s'
  unfolding cap_round
  cap_round-Shrinks s s' h = elim (Bool-cases r.list_ok) [
    | inl e ↦ cap_listed-Shrinks s.disk.segments s s' refl (ground arith)
    | inr e ↦ absurd (ground arith)
  ]

-- An outcome of the loop under a cap: it ended, and a success leaves segments within the cap.
abbrev pub IsSettled : ℕ → Outcome → Type 0
IsSettled cap (s', result) =
    (result ≢ err out_of_rounds) × (result ≡ ok tt → sizes s'.disk.segments ≤ cap)

append-ne-out_of_rounds :
    (a : Append) (b : Bytes) (s : Spool) → (append a b s).1 ≢ err out_of_rounds
unfolding append
append-ne-out_of_rounds a b s = ground arith

append_encoded-ne-out_of_rounds :
    (a : Append) (o : Option Bytes) (s : Spool) → (append_encoded a o s).1 ≢ err out_of_rounds
unfolding append_encoded
append_encoded-ne-out_of_rounds a none s = ground arith
append_encoded-ne-out_of_rounds a (some b) s = append-ne-out_of_rounds a (b ++ 10 ∷ []) s

total_size-ne-out_of_rounds :
    (stat : Bytes → Answer) (segments : List Segment) → total_size stat segments ≢ err out_of_rounds
unfolding total_size
total_size-ne-out_of_rounds stat [] = ground arith
total_size-ne-out_of_rounds stat (t ∷ segments) =
    ground (arith, total_size-ne-out_of_rounds stat segments)

go_on-IsSettled :
    (s : Spool) (o o' : Outcome)
    → o.1 ≢ err out_of_rounds
    → go_on o ≡ return o'
    → IsSettled s.max_bytes o'
go_on-IsSettled s (s₁, ok u) o' ne h = absurd (ground arith)
go_on-IsSettled s (s₁, err e) (s', result) ne h = (ground arith, ground arith)

module _ (enc : Encoders) (r : Round) where
  evict-IsSettled :
      (oldest : Segment) (rest : List Segment) (s : Spool) (o : Outcome)
      → evict enc r oldest rest s ≡ return o
      → IsSettled s.max_bytes o
  unfolding evict write_warning
  evict-IsSettled oldest rest s (s', result) h =
      let s'' : Spool = with_segments s (still_there r.stat rest) in
      let line : Option Bytes = enc.marshal (warning_envelope enc r oldest.name s.site s.host) in
      let out : Outcome = append_encoded r.warning line s'' in
      ground (
        arith,
        go_on-IsSettled s out (s', result),
        append_encoded-ne-out_of_rounds r.warning line s'',
      )

  weigh-IsSettled :
      (oldest : Segment) (rest : List Segment) (s : Spool) (o : Outcome)
      → weigh enc r oldest rest s ≡ return o
      → IsSettled s.max_bytes o
  unfolding weigh
  weigh-IsSettled oldest rest s (s', result) h =
      elim (Result-cases (total_size r.stat (oldest ∷ rest))) [
        | inr (x, p) ↦ ground (arith, total_size-ne-out_of_rounds r.stat (oldest ∷ rest))
        | inl (total, p) ↦ elim (Bool-cases (leb total s.max_bytes)) [
          | inl fits ↦ ground (arith, total_size-sizes r.stat (oldest ∷ rest) total p)
          | inr over ↦ evict-IsSettled oldest rest s (s', result) (ground arith)
        ]
      ]

  cap_listed-IsSettled :
      (segments : List Segment) (s : Spool) (o : Outcome)
      → s.disk.segments ≡ segments
      → cap_listed enc r segments s ≡ return o
      → IsSettled s.max_bytes o
  cap_listed-IsSettled [] s (s', result) e h = ground arith
  cap_listed-IsSettled (oldest ∷ rest) s o e h = weigh-IsSettled oldest rest s o h

  cap_round-IsSettled :
      (s : Spool) (o : Outcome) → cap_round enc r s ≡ return o → IsSettled s.max_bytes o
  unfolding cap_round
  cap_round-IsSettled s (s', result) h = elim (Bool-cases r.list_ok) [
    | inl e ↦ cap_listed-IsSettled s.disk.segments s (s', result) refl (ground arith)
    | inr e ↦ ground arith
  ]

Next-cases : (n : Next) → ((s : Spool) × (n ≡ continue s)) ⊎ ((o : Outcome) × (n ≡ return o))
Next-cases (continue s) = inl (s, refl)
Next-cases (return o) = inr (o, refl)

-- With more rounds than segments the loop of `enforceCap` ends by itself, whatever the shipper
-- removes meanwhile and whatever fails; and where it returns no error, the segments that it leaves
-- are within the cap.
pub enforce_cap-IsSettled :
    (enc : Encoders) (rounds : List Round) (s : Spool)
    → length s.disk.segments < length rounds
    → IsSettled s.max_bytes (enforce_cap enc rounds s)
unfolding enforce_cap
enforce_cap-IsSettled enc [] s h = absurd (omega arith)
enforce_cap-IsSettled enc (r ∷ rounds) s h = elim (Next-cases (cap_round enc r s)) [
  | inl (s', e) ↦
      let (shorter, same) = cap_round-Shrinks enc r s s' e in
      rw (e, enforce_cap)
        (subst (λ cap. IsSettled cap (enforce_cap enc rounds s')) same
          (enforce_cap-IsSettled enc rounds s' (omega arith)))
  | inr (o, e) ↦ rw (e, enforce_cap) (cap_round-IsSettled enc r s o e)
]
