-- ===== src/Collector/Cgroup/Selection.antt =====
-- What `walk` selects, against a walk of the whole tree.
use memaudit.Base.{
  ℕ, ◌+◌, ◌≡◌, refl, ◌∙◌, Bool, true, false, List, [], ◌∷◌, ◌++◌, append_assoc, append-nil, Bytes,
  bytes_eq, ltb, arith, Bool-cases, inl, inr,
}
use memaudit.Collector.Cgroup.{
  Elements, double_star, Entries, end, file, folder, match_glob, is_possible_prefix, matches_any,
  is_possible_prefix_for_any, max_cgroup_depth,
}

module _ (segment_matches : Bytes → Bytes → Bool) where
  possible_of_match :
      (segs more pattern : Elements)
      → match_glob segment_matches pattern (segs ++ more) ≡ true
      → is_possible_prefix segment_matches segs pattern ≡ true
  unfolding match_glob is_possible_prefix
  possible_of_match [] more pattern h = refl
  possible_of_match (s ∷ segs) more [] h = absurd (ground arith)
  possible_of_match (s ∷ segs) more (p ∷ pattern) h = elim (Bool-cases (bytes_eq p double_star)) [
    | inl e ↦ rw e refl
    | inr e ↦ elim (Bool-cases (segment_matches p s)) [
      | inl m ↦ rw (e, m) (possible_of_match segs more pattern (rw (e, m) at h))
      | inr m ↦ absurd (ground arith)
    ]
  ]

  -- A path that a glob matches has only possible prefixes.
  possible_of_matches :
      (segs more : Elements) (globs : List Elements)
      → matches_any segment_matches (segs ++ more) globs ≡ true
      → is_possible_prefix_for_any segment_matches segs globs ≡ true
  unfolding matches_any is_possible_prefix_for_any
  possible_of_matches segs more [] h = absurd (ground arith)
  possible_of_matches segs more (g ∷ globs) h =
      ground (arith, possible_of_match segs more g, possible_of_matches segs more globs)

  module _ (globs : List Elements) where
    abbrev pub only_if : Bool → List Elements → List Elements
    only_if true paths = paths
    only_if false paths = []

    -- The paths that a glob matches in the whole tree down to the depth cap, a directory before those
    -- below it: nothing is left out because no glob can match there.
    unfoldable pub selected : Entries → Elements → ℕ → List Elements
    selected end segs depth = []
    selected (file name rest) segs depth = selected rest segs depth
    selected (folder name readable children rest) segs depth =
        let child = segs ++ name ∷ [] in
        only_if (matches_any segment_matches child globs) (child ∷ [])
        ++ (only_if (ltb (depth + 1) max_cgroup_depth) (selected children child (depth + 1))
            ++ selected rest segs depth)

    only_if-nil : (b : Bool) (paths : List Elements) → paths ≡ [] → only_if b paths ≡ []
    only_if-nil true paths e = e
    only_if-nil false paths e = refl

    -- Below a path that no glob can extend, nothing is selected.
    pub selected-pruned :
        (entries : Entries) (segs more : Elements) (depth : ℕ)
        → is_possible_prefix_for_any segment_matches segs globs ≡ false
        → selected entries (segs ++ more) depth ≡ []
    unfolding selected
    selected-pruned end segs more depth h = refl
    selected-pruned (file name rest) segs more depth h = selected-pruned rest segs more depth h
    selected-pruned (folder name readable children rest) segs more depth h =
        let below : Elements = more ++ name ∷ [] in
        elim (Bool-cases (matches_any segment_matches (segs ++ below) globs)) [
          | inl m ↦ absurd (ground (arith, possible_of_matches segs below globs m))
          | inr m ↦
              rw (append_assoc segs more (name ∷ []), m, selected-pruned rest segs more depth h)
                (append-nil (
                    only_if (ltb (depth + 1) max_cgroup_depth)
                      (selected children (segs ++ below) (depth + 1)))
                  ∙ only_if-nil (ltb (depth + 1) max_cgroup_depth)
                      (selected children (segs ++ below) (depth + 1))
                      (selected-pruned children segs below (depth + 1) h))
        ]
