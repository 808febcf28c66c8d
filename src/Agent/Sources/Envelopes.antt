-- ===== src/Agent/Sources/Envelopes.antt =====
-- What a tick of a source hands on.
use memaudit.Base.{
  ℕ, ◌≡◌, ◌↔◌, inl, inr, refl, sym, ◌∙◌, List, [], ◌∷◌, Bytes, Option, none, some, Option-cases,
  Result, ok, err, ◌>>=◌, Result-cases, arith,
}
use memaudit.Model.{Envelope}
use memaudit.Agent.Sources.{Reading, one, many, Source, SourceError, envelope, envelopes, collect}

module _ {ℓ} {R : Type ℓ} (marshal : R → Option Bytes) (site host : Bytes) where
  -- An envelope for each record, in order, all of one type and one time.
  pub data Wraps (typ : Bytes) (ts : ℕ) : List R → List Envelope → Type ℓ where
    none_left : Wraps typ ts [] []
    wrap :
        {rec : R} {recs : List R} {b : Bytes} {out : List Envelope}
        → marshal rec ≡ some b
        → Wraps typ ts recs out
        → Wraps typ ts (rec ∷ recs) (envelope marshal site host typ ts b ∷ out)

  envelopes-Wraps :
      (typ : Bytes) (ts : ℕ) (recs : List R) (out : List Envelope)
      → envelopes marshal site host typ ts recs ≡ ok out
      → Wraps typ ts recs out
  unfolding envelopes
  envelopes-Wraps typ ts [] out h = let e : out ≡ [] = ground arith in rw e none_left
  envelopes-Wraps typ ts (rec ∷ recs) out h = elim (Option-cases (marshal rec)) [
    | inl e ↦ absurd (ground (arith, e))
    | inr (b, e) ↦ elim (Result-cases (envelopes marshal site host typ ts recs)) [
      | inr (x, f) ↦ absurd (ground (arith, e, f))
      | inl (rest, f) ↦
          let same : out ≡ envelope marshal site host typ ts b ∷ rest = ground (arith, e, f) in
          rw same (wrap e (envelopes-Wraps typ ts recs rest f))
    ]
  ]

  Wraps-envelopes :
      {typ : Bytes} {ts : ℕ} {recs : List R} {out : List Envelope}
      → Wraps typ ts recs out
      → envelopes marshal site host typ ts recs ≡ ok out
  unfolding envelopes
  Wraps-envelopes none_left = refl
  Wraps-envelopes (wrap e w) = rw (e, Wraps-envelopes w) refl

  -- The records of a reading, however its collector returns them.
  abbrev pub records_of : Reading R → Result SourceError (List R)
  records_of (one (ok none)) = ok []
  records_of (one (ok (some rec))) = ok (rec ∷ [])
  records_of (one (err e)) = err e
  records_of (many r) = r

  collect_records :
      (src : Source) (ts : ℕ) (reading : Reading R)
      → collect marshal site host src ts reading
        ≡ (records_of reading >>= λ recs. envelopes marshal site host src.typ ts recs)
  unfolding collect envelopes
  collect_records src ts (one (ok none)) = refl
  collect_records src ts (one (ok (some rec))) = refl
  collect_records src ts (one (err e)) = refl
  collect_records src ts (many (ok recs)) = refl
  collect_records src ts (many (err e)) = refl

  -- A tick of a source succeeds exactly if its collector does and every record can be marshalled, and
  -- then hands on an envelope for each record, in order, all with the type of the source and the time of
  -- the tick; an absent record is no envelope.
  pub collect_iff :
      (src : Source) (ts : ℕ) (reading : Reading R) (out : List Envelope)
      → (collect marshal site host src ts reading ≡ ok out)
        ↔ ((recs : List R) × (records_of reading ≡ ok recs) × Wraps src.typ ts recs out)
  collect_iff src ts reading out = (
    λ h. forward (records_of reading) refl (sym (collect_records src ts reading) ∙ h),
    λ (recs, e, w). collect_records src ts reading ∙ rw e (Wraps-envelopes w),
  )
    where
      forward :
          (r : Result SourceError (List R))
          → records_of reading ≡ r
          → (records_of reading >>= λ recs. envelopes marshal site host src.typ ts recs) ≡ ok out
          → (recs : List R) × (records_of reading ≡ ok recs) × Wraps src.typ ts recs out
      forward (ok recs) e h = (recs, e, envelopes-Wraps src.typ ts recs out (rw e at h))
      forward (err x) e h = absurd (ground (arith, h, e))
