-- ===== src/K8s/Paths/Forms.antt =====
-- Which names of cgroups carry the UID of a pod.
use memaudit.Base.{
  ℕ, ◌≡◌, ◌≢◌, ◌↔◌, ◌⊎◌, inl, inr, refl, sym, ap, ◌∙◌, Bool, true, false, ◌==◌, ==_iff, [], ◌∷◌,
  ◌++◌, append_assoc, Option, none, some, Option-cases, Bytes, codes, cut_prefix, All-append,
  Bool-cases, arith, if◌then◌else◌,
}
use memaudit.K8s.Paths.{
  is_lower, is_uid_char, run_of, captured, then_match, or_match, match_pod, match_behind_qos,
  pod_slice,
}
use memaudit.K8s.Paths.Runs.{
  AllIn, AllIn-weaken, run_of-append, run_of_sound, run_of_behind, captured_iff, then_match_iff,
  cut_prefix_iff,
}

-- The UID of a pod in the name of its slice: hexadecimal digits and underscores, at least one.
abbrev pub IsUidText : Bytes → Type 0
IsUidText u = (u ≢ []) × AllIn is_uid_char u

match_pod_iff :
    (s u : Bytes)
    → (match_pod s ≡ some u) ↔ (IsUidText u × (s ≡ codes "pod" ++ (u ++ codes ".slice")))
match_pod_iff s u = (forward, backward)
  where
    forward : match_pod s ≡ some u → IsUidText u × (s ≡ codes "pod" ++ (u ++ codes ".slice"))
    forward h =
        let (rest, e, f) =
          (then_match_iff (cut_prefix s (codes "pod"))
              (λ r. captured (codes ".slice") (run_of is_uid_char r)) u).0
            h in
        let (ne, all, split) = (captured_iff is_uid_char b'.' (codes "slice") rest u refl).0 f in
        (
          (ne, all),
          (cut_prefix_iff s (codes "pod") rest).0 e ∙ ap (λ (l : Bytes). codes "pod" ++ l) split,
        )

    backward : IsUidText u × (s ≡ codes "pod" ++ (u ++ codes ".slice")) → match_pod s ≡ some u
    backward ((ne, all), split) =
        (then_match_iff (cut_prefix s (codes "pod"))
            (λ r. captured (codes ".slice") (run_of is_uid_char r)) u).1
          (
            u ++ codes ".slice",
            (cut_prefix_iff s (codes "pod") (u ++ codes ".slice")).1 split,
            (captured_iff is_uid_char b'.' (codes "slice") (u ++ codes ".slice") u refl).1
                (ne, all, refl),
          )

-- The class of service in the name: nothing, or lower-case letters and a dash.
abbrev pub IsQos : Bytes → Type 0
IsQos qos =
    (qos ≡ [])
    ⊎ ((letters : Bytes) × (letters ≢ []) × AllIn is_lower letters × (qos ≡ letters ++ b'-' ∷ []))

match_behind_qos_sound :
    (r : Bytes × Bytes) (u : Bytes)
    → match_behind_qos r ≡ some u
    → (r.0 ≢ []) × ((rest : Bytes) × (r.1 ≡ b'-' ∷ rest) × (match_pod rest ≡ some u))
match_behind_qos_sound ([], rest) u h = absurd (ground arith)
match_behind_qos_sound (c ∷ run, []) u h = absurd (ground arith)
match_behind_qos_sound (c ∷ run, d ∷ rest) u h = elim (Bool-cases (d == b'-')) [
  | inr e ↦ absurd (ground (arith, e))
  | inl e ↦ (
    λ empty. absurd (ground arith),
    (rest, ap (λ (c : ℕ). c ∷ rest) ((==_iff d b'-').0 e), rw e at h),
  )
]

-- Where there is no dash there is no class of service.
abbrev is_no_dash : ℕ → Bool
is_no_dash c = if c == b'-' then false else true

match_behind_qos-none : (r : Bytes × Bytes) → AllIn is_no_dash r.1 → match_behind_qos r ≡ none
match_behind_qos-none ([], rest) all = refl
match_behind_qos-none (c ∷ run, []) all = refl
match_behind_qos-none (c ∷ run, d ∷ rest) (h, all) = ground (arith, h)

is_uid_char-no_dash : (c : ℕ) → is_uid_char c ≡ true → is_no_dash c ≡ true
is_uid_char-no_dash c h = ground arith

-- The name of a pod's slice.
abbrev pub slice_name : Bytes → Bytes → Bytes
slice_name qos u = codes "kubepods-" ++ (qos ++ (codes "pod" ++ (u ++ codes ".slice")))

-- What `podSliceRE` asks of the text behind its prefix.
abbrev behind_prefix : Bytes → Option Bytes
behind_prefix r = or_match (match_behind_qos (run_of is_lower r)) (match_pod r)

behind_prefix_sound :
    (r u : Bytes)
    → behind_prefix r ≡ some u
    → (qos : Bytes) × IsQos qos × IsUidText u × (r ≡ qos ++ (codes "pod" ++ (u ++ codes ".slice")))
behind_prefix_sound r u h = elim (Option-cases (match_behind_qos (run_of is_lower r))) [
  | inl e ↦ let (text, split) = (match_pod_iff r u).0 (rw e at h) in ([], inl refl, text, split)
  | inr (v, e) ↦
      let same : v ≡ u = ground (arith, e, h) in
      let (ne, (rest, dash, f)) = match_behind_qos_sound (run_of is_lower r) u (rw same at e) in
      let (text, split) = (match_pod_iff rest u).0 f in
      let (all, whole) = run_of_sound is_lower r in
      (
        (run_of is_lower r).0 ++ b'-' ∷ [],
        inr ((run_of is_lower r).0, ne, all, refl),
        text,
        whole
            ∙ ap (λ (l : Bytes). (run_of is_lower r).0 ++ l)
                (dash ∙ ap (λ (l : Bytes). b'-' ∷ l) split)
            ∙ sym (
                append_assoc (run_of is_lower r).0 (b'-' ∷ [])
                  (codes "pod" ++ (u ++ codes ".slice"))),
      )
]

behind_prefix_complete :
    (qos u : Bytes)
    → IsQos qos
    → IsUidText u
    → behind_prefix (qos ++ (codes "pod" ++ (u ++ codes ".slice"))) ≡ some u
behind_prefix_complete qos u (inl e) (ne, all) =
    let no_dash : AllIn is_no_dash (codes "pod" ++ (u ++ codes ".slice")) = (
      refl,
      (
        refl,
        (
          refl,
          All-append (λ (c : ℕ). is_no_dash c ≡ true) u (codes ".slice")
              (AllIn-weaken is_uid_char is_no_dash is_uid_char-no_dash u all)
              (refl, (refl, (refl, (refl, (refl, (refl, tt)))))),
        ),
      ),
    ) in
    rw
      (
        e,
        match_behind_qos-none (run_of is_lower (codes "pod" ++ (u ++ codes ".slice")))
            (run_of_behind is_lower is_no_dash (codes "pod" ++ (u ++ codes ".slice")) no_dash),
      )
      ((match_pod_iff (codes "pod" ++ (u ++ codes ".slice")) u).1 ((ne, all), refl))
behind_prefix_complete qos u (inr ([], some_letters, lower, e)) (ne, all) =
    absurd (some_letters refl)
behind_prefix_complete qos u (inr (c ∷ letters, some_letters, lower, e)) (ne, all) =
    rw
      (
        e,
        append_assoc (c ∷ letters) (b'-' ∷ []) (codes "pod" ++ (u ++ codes ".slice")),
        run_of-append is_lower (c ∷ letters) b'-' (codes "pod" ++ (u ++ codes ".slice")) lower refl,
        (match_pod_iff (codes "pod" ++ (u ++ codes ".slice")) u).1 ((ne, all), refl),
      )
      refl

-- A name matches `podSliceRE` with a capture exactly if it is the name of a pod's slice: the prefix,
-- the class of service or nothing, and the text of the UID, which is the capture.
pub pod_slice_iff :
    (seg u : Bytes)
    → (pod_slice seg ≡ some u)
      ↔ ((qos : Bytes) × IsQos qos × IsUidText u × (seg ≡ slice_name qos u))
unfolding pod_slice
pod_slice_iff seg u = (forward, backward)
  where
    forward :
        then_match (cut_prefix seg (codes "kubepods-")) behind_prefix ≡ some u
        → (qos : Bytes) × IsQos qos × IsUidText u × (seg ≡ slice_name qos u)
    forward h =
        let (r, e, f) = (then_match_iff (cut_prefix seg (codes "kubepods-")) behind_prefix u).0 h in
        let (qos, is_qos, text, split) = behind_prefix_sound r u f in
        (
          qos,
          is_qos,
          text,
          (cut_prefix_iff seg (codes "kubepods-") r).0 e
              ∙ ap (λ (l : Bytes). codes "kubepods-" ++ l) split,
        )

    backward :
        ((qos : Bytes) × IsQos qos × IsUidText u × (seg ≡ slice_name qos u))
        → then_match (cut_prefix seg (codes "kubepods-")) behind_prefix ≡ some u
    backward (qos, is_qos, text, split) =
        (then_match_iff (cut_prefix seg (codes "kubepods-")) behind_prefix u).1 (
          qos ++ (codes "pod" ++ (u ++ codes ".slice")),
          (cut_prefix_iff seg (codes "kubepods-") _).1 split,
          behind_prefix_complete qos u is_qos text,
        )
