-- ===== src/Spool/Store/Write.antt =====
-- The form of the directory through `enforceCap`, a whole rotation and `Write` (spool.go).
use memaudit.Base.{
  ◌≡◌, ◌⊎◌, refl, inl, inr, if◌then◌else◌, Bool, true, false, List, [], ◌∷◌, Bytes, Option, none,
  some, ok, err, All, Bool-cases, leb, Result-cases,
}
use memaudit.Model.{Envelope}
use memaudit.Spool.Disk.{Segment, Disk, IsListing, bytes_lt}
use memaudit.Spool.State.{
  Spool, Outcome, Append, all_bytes, failed_after, append, append_encoded, list_failed,
}
use memaudit.Spool.Cap.{
  Answer, done, vanished, failed, Round, Encoders, write_warning, still_there, Next, continue,
  return, go_on, removal_of, evict, weigh, cap_listed, cap_round, enforce_cap, total_size,
}
use memaudit.Spool.Ops.{
  is_segment, RotateCalls, WriteCalls, and_then, rotate_active, rotate, is_old, rotate_old,
  rotate_full, write,
}
use memaudit.Spool.Listing.{IsStore}
use memaudit.Spool.Store.{StaysStore, rotate_active-StaysStore}

append-StaysStore :
    (a : Append) (b : Bytes) (s : Spool) → IsStore s.disk → StaysStore (append a b s)
unfolding append
append-StaysStore all_bytes b s store = elim (Bool-cases s.handle_open) [
  | inr e ↦ rw e store
  | inl e ↦
      rw e (record { ascending = store.ascending; suffixed = store.suffixed; apart = store.apart })
]
append-StaysStore (failed_after n) b s store = elim (Bool-cases s.handle_open) [
  | inr e ↦ rw e store
  | inl e ↦
      rw e (record { ascending = store.ascending; suffixed = store.suffixed; apart = store.apart })
]

append_encoded-StaysStore :
    (a : Append) (l : Option Bytes) (s : Spool) → IsStore s.disk → StaysStore (append_encoded a l s)
unfolding append_encoded
append_encoded-StaysStore a none s store = store
append_encoded-StaysStore a (some b) s store = append-StaysStore a _ s store

Answer-cases : (a : Answer) → (a ≡ done) ⊎ ((a ≡ vanished) ⊎ (a ≡ failed))
Answer-cases done = inl refl
Answer-cases vanished = inr (inl refl)
Answer-cases failed = inr (inr refl)

-- A part of the listing, as it is after the shipper has removed segments.
All-still_there :
    (P : Segment → Type 0) (stat : Bytes → Answer) (segs : List Segment)
    → All P segs
    → All P (still_there stat segs)
unfolding still_there
All-still_there P stat [] all = tt
All-still_there P stat (t ∷ segs) (p, all) = elim (Answer-cases (stat t.name)) [
  | inl e ↦ rw (e, still_there) (p, All-still_there P stat segs all)
  | inr (inl e) ↦ rw (e, still_there) (All-still_there P stat segs all)
  | inr (inr e) ↦ rw (e, still_there) (p, All-still_there P stat segs all)
]

still_there-IsListing :
    (stat : Bytes → Answer) (segs : List Segment)
    → IsListing segs
    → IsListing (still_there stat segs)
unfolding still_there
still_there-IsListing stat [] l = tt
still_there-IsListing stat (t ∷ segs) (below, l) =
    let rest = still_there-IsListing stat segs l in
    let above = All-still_there (λ (u : Segment). bytes_lt t.name u.name ≡ true) stat segs below in
    elim (Answer-cases (stat t.name)) [
      | inl e ↦ rw (e, still_there) (above, rest)
      | inr (inl e) ↦ rw (e, still_there) rest
      | inr (inr e) ↦ rw (e, still_there) (above, rest)
    ]

still_there-IsStore :
    (stat : Bytes → Answer) (segs : List Segment) (d : Disk)
    → IsStore (record d { segments = segs })
    → IsStore (record d { segments = still_there stat segs })
still_there-IsStore stat segs d store = record {
  ascending = still_there-IsListing stat segs store.ascending;
  suffixed = All-still_there (λ (t : Segment). is_segment t.name ≡ true) stat segs store.suffixed;
  apart = store.apart;
}

tail-IsStore :
    (t : Segment) (rest : List Segment) (d : Disk)
    → IsStore (record d { segments = t ∷ rest })
    → IsStore (record d { segments = rest })
tail-IsStore t rest d store = record {
  ascending = store.ascending.1;
  suffixed = store.suffixed.1;
  apart = store.apart;
}

-- An iteration goes on from a store, or returns with one.
data NextIsStore : Next → Type 0 where
  going : {s : Spool} → IsStore s.disk → NextIsStore (continue s)
  ended : {o : Outcome} → IsStore o.0.disk → NextIsStore (return o)

go_on-IsStore : (o : Outcome) → StaysStore o → NextIsStore (go_on o)
go_on-IsStore (s, ok u) store = going store
go_on-IsStore (s, err e) store = ended store

module _ (enc : Encoders) where
  evict-IsStore :
      (r : Round) (oldest : Segment) (rest : List Segment) (s : Spool)
      → IsStore (record s.disk { segments = oldest ∷ rest })
      → NextIsStore (evict enc r oldest rest s)
  unfolding evict write_warning
  evict-IsStore r oldest rest s store =
      let all = still_there-IsStore r.stat (oldest ∷ rest) s.disk store in
      let behind = still_there-IsStore r.stat rest s.disk (tail-IsStore oldest rest s.disk store) in
      elim (Answer-cases (removal_of (r.stat oldest.name) r.removal)) [
        | inl e ↦ rw (e, evict) (go_on-IsStore _ (append_encoded-StaysStore r.warning _ _ behind))
        | inr (inl e) ↦ rw (e, evict) (going behind)
        | inr (inr e) ↦ rw (e, evict) (ended all)
      ]

  weigh-IsStore :
      (r : Round) (oldest : Segment) (rest : List Segment) (s : Spool)
      → IsStore (record s.disk { segments = oldest ∷ rest })
      → NextIsStore (weigh enc r oldest rest s)
  unfolding weigh
  weigh-IsStore r oldest rest s store =
      let all = still_there-IsStore r.stat (oldest ∷ rest) s.disk store in
      elim (Result-cases (total_size r.stat (oldest ∷ rest))) [
        | inr (x, e) ↦ rw (e, weigh) (ended all)
        | inl (total, e) ↦ elim (Bool-cases (leb total s.max_bytes)) [
          | inl f ↦ rw (e, weigh, f) (ended all)
          | inr f ↦ rw (e, weigh, f) (evict-IsStore r oldest rest s store)
        ]
      ]

  cap_listed-IsStore :
      (r : Round) (segs : List Segment) (s : Spool)
      → IsStore s.disk
      → IsStore (record s.disk { segments = segs })
      → NextIsStore (cap_listed enc r segs s)
  cap_listed-IsStore r [] s store listed = ended store
  cap_listed-IsStore r (oldest ∷ rest) s store listed = weigh-IsStore r oldest rest s listed

  listed_if :
      (list_ok : Bool) (r : Round) (s : Spool)
      → IsStore s.disk
      → NextIsStore
          (if list_ok then cap_listed enc r s.disk.segments s else return (s, err list_failed))
  listed_if true r s store = cap_listed-IsStore r s.disk.segments s store store
  listed_if false r s store = ended store

  cap_round-IsStore : (r : Round) (s : Spool) → IsStore s.disk → NextIsStore (cap_round enc r s)
  unfolding cap_round
  cap_round-IsStore r s store = listed_if r.list_ok r s store

  after_round :
      (rounds : List Round) (n : Next)
      → NextIsStore n
      → ((s : Spool) → IsStore s.disk → StaysStore (enforce_cap enc rounds s))
      → StaysStore (elim n [ continue s ↦ enforce_cap enc rounds s | return o ↦ o ])
  after_round rounds (continue s) (going store) later = later s store
  after_round rounds (return o) (ended store) later = store

  enforce_cap-StaysStore :
      (rounds : List Round) (s : Spool) → IsStore s.disk → StaysStore (enforce_cap enc rounds s)
  unfolding enforce_cap
  enforce_cap-StaysStore [] s store = store
  enforce_cap-StaysStore (r ∷ rounds) s store =
      after_round rounds (cap_round enc r s) (cap_round-IsStore r s store)
        (enforce_cap-StaysStore rounds)

  and_then-StaysStore :
      (o : Outcome) (k : Spool → Outcome)
      → StaysStore o
      → ((s : Spool) → IsStore s.disk → StaysStore (k s))
      → StaysStore (and_then o k)
  and_then-StaysStore (s, ok u) k store later = later s store
  and_then-StaysStore (s, err e) k store later = store

  module _ (compress : Bytes → Bytes) where
    rotate-StaysStore :
        (c : RotateCalls) (s : Spool) → IsStore s.disk → StaysStore (rotate compress enc c s)
    unfolding rotate
    rotate-StaysStore c s store =
        and_then-StaysStore (rotate_active compress c s) (enforce_cap enc c.rounds)
          (rotate_active-StaysStore compress c s store) (enforce_cap-StaysStore c.rounds)

    rotate_if :
        (b : Bool) (c : RotateCalls) (s : Spool)
        → IsStore s.disk
        → StaysStore (if b then rotate compress enc c s else (s, ok tt))
    rotate_if true c s store = rotate-StaysStore c s store
    rotate_if false c s store = store

    -- However a `Write` ends, whichever of its calls fail and whatever the shipper has removed meanwhile:
    -- where the segments' names ascend and have the suffix of a segment, and those of the temporary files
    -- have not, it is still so.
    pub write-StaysStore :
        (c : WriteCalls compress enc) (e : Envelope) (s : Spool)
        → IsStore s.disk
        → StaysStore (write compress enc c e s)
    unfolding write rotate_old rotate_full
    write-StaysStore c e s store =
        and_then-StaysStore (rotate_old compress enc c s) _
          (rotate_if (is_old compress enc c.now s) c.aged s store)
          (λ s₁ h₁.
            and_then-StaysStore (append_encoded c.line (enc.marshal e) s₁) _
              (append_encoded-StaysStore c.line (enc.marshal e) s₁ h₁)
              (λ s₂ h₂. rotate_if (leb s₂.rotate_bytes s₂.active_size) c.full s₂ h₂))
