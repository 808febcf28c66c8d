-- ===== src/Spool/Rotation.antt =====
-- Nothing that was written is lost by a rotation, except what the cap evicts.
pub mod Write
use memaudit.Base.{
  ℕ, suc, ◌+◌, ◌<◌, ◌≡◌, refl, sym, ap, subst, ◌∙◌, Bool, true, false, List, [], ◌∷◌, ◌++◌,
  append_assoc, append-nil, Bytes, bytes_eq, bytes_eq_sound, Result, ok, err, Option, none, some,
  length, length-append, arith, All, Bool-cases, inl, inr,
}
use memaudit.Model.{Envelope}
use memaudit.Spool.Disk.{Segment, Disk, publish, bytes_lt, bytes_lt_trans, bytes_lt_irrefl}
use memaudit.Spool.State.{Spool, SpoolError, Outcome, Append, all_bytes, append, append_encoded}
use memaudit.Spool.Cap.{Encoders, Round, enforce_cap}
use memaudit.Spool.Cap.Oldest.{
  AllQuiet, Evicts, keep, drop, warning_lines, Dropped, enforce_cap-Dropped,
}
use memaudit.Spool.Ops.{
  RotateCalls, guard_call, closed, with_tmp, renamed, reopened, and_then, publish_active,
  rotate_active, rotate, segment_name,
}

-- A rotation in which every call succeeds and the shipper takes nothing.
pub record IsSmooth (c : RotateCalls) : Type 0 where
  pub synced : c.sync_ok ≡ true
  pub closed_ : c.close_ok ≡ true
  pub was_read : c.read_ok ≡ true
  pub created : c.create_ok ≡ true
  pub compressed : c.compress_ok ≡ true
  pub segment_synced : c.segment_sync_ok ≡ true
  pub was_renamed : c.rename_ok ≡ true
  pub was_reopened : c.reopen_ok ≡ true
  pub quiet : AllQuiet c.rounds

-- The new name comes after the names of all segments, as a ULID made later does.
abbrev pub IsFresh : Bytes → List Segment → Type 0
IsFresh ulid segments = All (λ (t : Segment). bytes_lt t.name (segment_name ulid) ≡ true) segments

publish-after :
    (s : Segment) (segments : List Segment)
    → All (λ (t : Segment). bytes_lt t.name s.name ≡ true) segments
    → publish s segments ≡ segments ++ s ∷ []
unfolding publish
publish-after s [] all = refl
publish-after s (t ∷ segments) all = elim (Bool-cases (bytes_eq s.name t.name)) [
  | inl e ↦ absurd (
      ground (
        arith,
        bytes_lt_irrefl t.name,
        subst (λ n. bytes_lt t.name n ≡ true) (bytes_eq_sound s.name t.name e) all.0,
      ))
  | inr e ↦ elim (Bool-cases (bytes_lt s.name t.name)) [
    | inl l ↦
        absurd (ground (arith, bytes_lt_irrefl t.name, bytes_lt_trans t.name s.name t.name all.0 l))
    | inr l ↦ rw (e, l, publish-after s segments all.1) refl
  ]
]

-- The zstd decoder undoes the encoder.
module _ (compress decompress : Bytes → Bytes)
    (decompress-compress : (b : Bytes) → decompress (compress b) ≡ b) where
  abbrev pub contents : List Segment → Bytes
  contents [] = []
  contents (t ∷ segments) = decompress t.content ++ contents segments

  -- Everything that the spool holds, from the oldest line on.
  abbrev pub log : Spool → Bytes
  log s = contents s.disk.segments ++ s.disk.active

  contents-append : (a b : List Segment) → contents (a ++ b) ≡ contents a ++ contents b
  contents-append [] b = refl
  contents-append (t ∷ a) b =
      ap (λ (l : Bytes). decompress t.content ++ l) (contents-append a b)
      ∙ sym (append_assoc (decompress t.content) (contents a) (contents b))

  contents-Evicts :
      (cap : ℕ) (segments evicted kept : List Segment)
      → Evicts cap segments evicted kept
      → contents segments ≡ contents evicted ++ contents kept
  contents-Evicts cap _ _ _ (keep fits) = refl
  contents-Evicts cap _ _ _ (drop {t} {segments} {evicted} {kept} over rest) =
      ap (λ (l : Bytes). decompress t.content ++ l) (contents-Evicts cap segments evicted kept rest)
      ∙ sym (append_assoc (decompress t.content) (contents evicted) (contents kept))

  abbrev pub new_segment : Bytes → Spool → Segment
  new_segment ulid s = record { name = segment_name ulid; content = compress s.disk.active }

  abbrev before_cap : RotateCalls → Spool → Spool
  before_cap c s = reopened c.now (
      renamed c.ulid (compress s.disk.active) (with_tmp c.ulid (compress s.disk.active) (closed s)))

  rotate_active_smooth :
      (c : RotateCalls) (s : Spool)
      → IsSmooth c
      → s.handle_open ≡ true
      → rotate_active compress c s ≡ (before_cap c s, ok tt)
  unfolding rotate_active publish_active guard_call
  rotate_active_smooth c s q o =
      rw
        (
          o, q.synced, q.closed_, q.was_read, q.created, q.compressed, q.segment_synced,
          q.was_renamed, q.was_reopened,
        )
        refl

  module _ (enc : Encoders) (encode : Envelope → Bytes)
      (encodes : (e : Envelope) → enc.marshal e ≡ some (encode e)) where
    abbrev pub warnings : List Round → List Segment → Bytes → Bytes → Bytes
    warnings = warning_lines enc encode encodes

    -- After a rotation that dropped `evicted`: nothing but them is gone, and the active file holds only
    -- their warnings.
    pub record Rotated (c : RotateCalls) (s s' : Spool) (evicted : List Segment) : Type 0 where
      pub conserved : contents evicted ++ log s' ≡ log s ++ warnings c.rounds evicted s.site s.host
      pub by_age :
          Evicts s.max_bytes (s.disk.segments ++ new_segment c.ulid s ∷ []) evicted s'.disk.segments
      pub fresh_active : s'.disk.active ≡ warnings c.rounds evicted s.site s.host
      pub counted : s'.active_size ≡ length s'.disk.active
      pub same_site : s'.site ≡ s.site
      pub same_host : s'.host ≡ s.host
      pub still_open : s'.handle_open ≡ true

    module _ (c : RotateCalls) (s : Spool) (fresh : IsFresh c.ulid s.disk.segments) where
      abbrev listed : List Segment
      listed = s.disk.segments ++ new_segment c.ulid s ∷ []

      contents-listed : contents listed ≡ log s
      contents-listed =
          contents-append s.disk.segments (new_segment c.ulid s ∷ [])
          ∙ ap (λ (l : Bytes). contents s.disk.segments ++ l)
              (append-nil (decompress (compress s.disk.active)) ∙ decompress-compress s.disk.active)

      conserved_by :
          (evicted : List Segment) (s' : Spool)
          → Evicts s.max_bytes listed evicted s'.disk.segments
          → s'.disk.active ≡ warnings c.rounds evicted s.site s.host
          → contents evicted ++ log s' ≡ log s ++ warnings c.rounds evicted s.site s.host
      conserved_by evicted s' by_age active =
          sym (append_assoc (contents evicted) (contents s'.disk.segments) s'.disk.active)
          ∙ ap (λ (l : Bytes). l ++ s'.disk.active)
              (sym (contents-Evicts s.max_bytes listed evicted s'.disk.segments by_age)
                ∙ contents-listed)
          ∙ ap (λ (l : Bytes). log s ++ l) active

      Rotated-Dropped :
          (evicted : List Segment) (s' : Spool)
          → Dropped enc encode encodes c.rounds (before_cap c s) s' evicted
          → Rotated c s s' evicted
      Rotated-Dropped evicted s' d =
          let by_age : Evicts s.max_bytes listed evicted s'.disk.segments =
            subst (λ (l : List Segment). Evicts s.max_bytes l evicted s'.disk.segments)
              (publish-after (new_segment c.ulid s) s.disk.segments fresh) d.by_age in
          record {
            conserved = conserved_by evicted s' by_age d.warned;
            by_age = by_age;
            fresh_active = d.warned;
            counted = omega (arith, d.counted, ap length d.warned);
            same_site = ap (λ (t : Spool). t.site) d.frame;
            same_host = ap (λ (t : Spool). t.host) d.frame;
            still_open = ap (λ (t : Spool). t.handle_open) d.frame;
          }

      -- A rotation in which every call succeeds, under a name after all others, loses nothing but the
      -- segments that it evicts: these, the segments left and the active file hold what the spool held
      -- before, followed by one warning for each evicted segment.
      pub rotate-Rotated :
          IsSmooth c
          → s.handle_open ≡ true
          → length s.disk.segments + 1 < length c.rounds
          → (evicted : List Segment) × (s' : Spool) × (rotate compress enc c s ≡ (s', ok tt))
            × Rotated c s s' evicted
      unfolding rotate
      rotate-Rotated q o enough =
          let published : List Segment = publish (new_segment c.ulid s) s.disk.segments in
          let few : length published < length c.rounds =
            rw
              (
                publish-after (new_segment c.ulid s) s.disk.segments fresh,
                length-append s.disk.segments (new_segment c.ulid s ∷ []),
              )
              enough in
          let (evicted, s', returned, d) =
            enforce_cap-Dropped enc encode encodes c.rounds published (before_cap c s) q.quiet refl
              refl few in
          (evicted, s', rw (rotate_active_smooth c s q o) returned, Rotated-Dropped evicted s' d)
