-- ===== src/Spool/Store.antt =====
-- The form of the directory that `Segments` reads, through a rotation up to the cap (spool.go).
pub mod Write
use memaudit.Base.{
  ℕ, ◌≡◌, refl, sym, ap, ◌∙◌, inl, inr, Bool, true, false, List, [], ◌∷◌, ◌++◌, Bytes, codes,
  Option, none, some, Result, ok, err, All, arith, Bool-cases, bytes_eq, cut_suffix,
  cut_suffix-append, cut_suffix_sound, Option-cases,
}
use memaudit.Model.{Envelope}
use memaudit.Spool.Disk.{Segment, Disk, IsListing, bytes_lt, publish, remove, publish-IsListing}
use memaudit.Spool.State.{Spool, SpoolError, Outcome, Append, append, append_encoded}
use memaudit.Spool.Ops.{
  is_segment, segment_name, tmp_name, RotateCalls, guard_call, closed, publish_active,
  rotate_active, and_then,
}
use memaudit.Spool.Listing.{IsStore}

-- The last byte of a text, if it has one.
abbrev last_of : ℕ → Bytes → ℕ
last_of d [] = d
last_of d (c ∷ s) = last_of c s

last_of-append : (d : ℕ) (s : Bytes) (c : ℕ) (t : Bytes) → last_of d (s ++ c ∷ t) ≡ last_of c t
last_of-append d [] c t = refl
last_of-append d (b ∷ s) c t = last_of-append b s c t

is_segment-segment_name : (ulid : Bytes) → is_segment (segment_name ulid) ≡ true
is_segment-segment_name ulid = rw (cut_suffix-append ulid (codes ".jsonl.zst"), is_segment) refl

is_segment-tmp_name : (ulid : Bytes) → is_segment (tmp_name ulid) ≡ false
is_segment-tmp_name ulid = elim (Option-cases (cut_suffix (tmp_name ulid) (codes ".jsonl.zst"))) [
  | inl e ↦ rw (e, is_segment) refl
  | inr (r, e) ↦
      let same : segment_name ulid ++ codes ".tmp" ≡ r ++ codes ".jsonl.zst" =
        cut_suffix_sound (tmp_name ulid) (codes ".jsonl.zst") r e in
      let ends : last_of 0 (codes "p") ≡ last_of 0 (codes "t") =
        sym (last_of-append 0 (segment_name ulid) 46 (116 ∷ 109 ∷ 112 ∷ []))
        ∙ ap (last_of 0) same
        ∙ last_of-append 0 r 46 (codes "jsonl.zst") in
      absurd (omega arith)
]

All-publish :
    (P : Segment → Type 0) (s : Segment) (segs : List Segment)
    → P s
    → All P segs
    → All P (publish s segs)
unfolding publish
All-publish P s [] p all = (p, tt)
All-publish P s (t ∷ segs) p (q, all) = elim (Bool-cases (bytes_eq s.name t.name)) [
  | inl e ↦ rw e (p, all)
  | inr e ↦ elim (Bool-cases (bytes_lt s.name t.name)) [
    | inl l ↦ rw (e, l) (p, (q, all))
    | inr l ↦ rw (e, l) (q, All-publish P s segs p all)
  ]
]

All-remove :
    (P : Segment → Type 0) (name : Bytes) (segs : List Segment)
    → All P segs
    → All P (remove name segs)
unfolding remove
All-remove P name [] all = tt
All-remove P name (t ∷ segs) (q, all) = elim (Bool-cases (bytes_eq name t.name)) [
  | inl e ↦ rw e all
  | inr e ↦ rw e (q, All-remove P name segs all)
]

-- What an operation leaves is a store.
abbrev pub StaysStore : Outcome → Type 0
StaysStore o = IsStore o.0.disk

guard_call-StaysStore :
    (b : Bool) (e : SpoolError) (s : Spool) (o : Outcome)
    → StaysStore (s, err e)
    → StaysStore o
    → StaysStore (guard_call b e s o)
unfolding guard_call
guard_call-StaysStore true e s o p q = q
guard_call-StaysStore false e s o p q = p

module _ (compress : Bytes → Bytes) where
  with_content :
      (ulid content : Bytes) (d : Disk)
      → IsStore d
      → IsStore
          (record d { tmps = publish (record { name = tmp_name ulid; content = content }) d.tmps })
  with_content ulid content d store = record {
    ascending = store.ascending;
    suffixed = store.suffixed;
    apart = All-publish _ _ d.tmps (is_segment-tmp_name ulid) store.apart;
  }

  publish_active-StaysStore :
      (c : RotateCalls) (s : Spool) → IsStore s.disk → StaysStore (publish_active compress c s)
  unfolding publish_active
  publish_active-StaysStore c s store =
      let written = with_content c.ulid (compress s.disk.active) s.disk store in
      let segment : Segment = record {
        name = segment_name c.ulid;
        content = compress s.disk.active;
      } in
      let ascends = publish-IsListing segment s.disk.segments store.ascending in
      let ends =
        All-publish (λ (t : Segment). is_segment t.name ≡ true) segment s.disk.segments
          (is_segment-segment_name c.ulid) store.suffixed in
      let gone =
        All-remove (λ (t : Segment). is_segment t.name ≡ false) (tmp_name c.ulid) _ written.apart in
      guard_call-StaysStore c.create_ok _ _ _ store (
        guard_call-StaysStore c.compress_ok _ _ _ (with_content c.ulid c.partial s.disk store) (
          guard_call-StaysStore c.segment_sync_ok _ _ _ written (
            guard_call-StaysStore c.rename_ok _ _ _ written (
              guard_call-StaysStore c.reopen_ok _ _ _
                (record { ascending = ascends; suffixed = ends; apart = gone })
                (record { ascending = ascends; suffixed = ends; apart = gone })))))

  pub rotate_active-StaysStore :
      (c : RotateCalls) (s : Spool) → IsStore s.disk → StaysStore (rotate_active compress c s)
  unfolding rotate_active
  rotate_active-StaysStore c s store = guard_call-StaysStore s.handle_open _ _ _ store (
      guard_call-StaysStore c.sync_ok _ _ _ store (
        guard_call-StaysStore c.close_ok _ _ _ store (
          guard_call-StaysStore c.read_ok _ _ _ store
            (publish_active-StaysStore c (closed s) store))))
