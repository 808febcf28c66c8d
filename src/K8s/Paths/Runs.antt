-- ===== src/K8s/Paths/Runs.antt =====
-- The runs of a class that the regular expressions take, and what is behind them.
use memaudit.Base.{
  ℕ, ◌≡◌, ◌≢◌, ◌↔◌, inl, inr, refl, ap, subst, ◌∙◌, Bool, true, false, [], ◌∷◌, ◌++◌, Option, none,
  some, Bytes, bytes_eq, bytes_eq_refl, bytes_eq_sound, cut_prefix, cut_prefix-append,
  cut_prefix_sound, All, Bool-cases, arith,
}
use memaudit.K8s.Paths.{run_of, captured, then_match}

-- Every byte is of the class.
abbrev pub AllIn : (ℕ → Bool) → Bytes → Type 0
AllIn p s = All (λ (c : ℕ). p c ≡ true) s

module _ (p : ℕ → Bool) where
  pub run_of-append :
      (run : Bytes) (c : ℕ) (rest : Bytes)
      → AllIn p run
      → p c ≡ false
      → run_of p (run ++ c ∷ rest) ≡ (run, c ∷ rest)
  unfolding run_of
  run_of-append [] c rest all e = rw e refl
  run_of-append (d ∷ run) c rest (h, all) e = rw (h, run_of-append run c rest all e) refl

  pub run_of_sound : (s : Bytes) → AllIn p (run_of p s).0 × (s ≡ (run_of p s).0 ++ (run_of p s).1)
  unfolding run_of
  run_of_sound [] = (tt, refl)
  run_of_sound (c ∷ s) = elim (Bool-cases (p c)) [
    | inl e ↦ let (all, split) = run_of_sound s in rw e ((e, all), ap (λ (l : Bytes). c ∷ l) split)
    | inr e ↦ rw e (tt, refl)
  ]

  -- A byte that is nowhere in the text is not behind its run either.
  pub run_of_behind : (q : ℕ → Bool) (s : Bytes) → AllIn q s → AllIn q (run_of p s).1
  unfolding run_of
  run_of_behind q [] all = tt
  run_of_behind q (c ∷ s) (h, all) = elim (Bool-cases (p c)) [
    | inl e ↦ rw e (run_of_behind q s all)
    | inr e ↦ rw e (h, all)
  ]

  captured_sound :
      (suffix : Bytes) (r : Bytes × Bytes) (u : Bytes)
      → captured suffix r ≡ some u
      → (u ≢ []) × (r ≡ (u, suffix))
  captured_sound suffix ([], rest) u h = absurd (ground arith)
  captured_sound suffix (c ∷ run, rest) u h = elim (Bool-cases (bytes_eq rest suffix)) [
    | inr e ↦ absurd (ground (arith, e))
    | inl e ↦
        let same : c ∷ run ≡ u = ground (arith, e) in
        (
          λ empty. absurd (ground (arith, same, empty)),
          rw (same, bytes_eq_sound rest suffix e) refl,
        )
  ]

  pub captured_iff :
      (d : ℕ) (suffix r u : Bytes)
      → p d ≡ false
      → (captured (d ∷ suffix) (run_of p r) ≡ some u)
        ↔ ((u ≢ []) × AllIn p u × (r ≡ u ++ d ∷ suffix))
  captured_iff d suffix r u e = (forward, backward r u)
    where
      forward :
          captured (d ∷ suffix) (run_of p r) ≡ some u → (u ≢ []) × AllIn p u × (r ≡ u ++ d ∷ suffix)
      forward h =
          let (ne, same) = captured_sound (d ∷ suffix) (run_of p r) u h in
          let (all, split) = run_of_sound r in
          (
            ne,
            subst (λ (l : Bytes). AllIn p l) (ap (λ (x : Bytes × Bytes). x.0) same) all,
            split ∙ ap (λ (x : Bytes × Bytes). x.0 ++ x.1) same,
          )

      backward :
          (r u : Bytes)
          → (u ≢ []) × AllIn p u × (r ≡ u ++ d ∷ suffix)
          → captured (d ∷ suffix) (run_of p r) ≡ some u
      backward r [] (ne, all, split) = absurd (ne refl)
      backward r (c ∷ u) (ne, all, split) =
          rw (split, run_of-append (c ∷ u) d suffix all e, bytes_eq_refl (d ∷ suffix)) refl

pub then_match_iff :
    (o : Option Bytes) (k : Bytes → Option Bytes) (u : Bytes)
    → (then_match o k ≡ some u) ↔ ((rest : Bytes) × (o ≡ some rest) × (k rest ≡ some u))
then_match_iff none k u = (λ h. absurd (ground arith), λ (rest, e, f). absurd (ground arith))
then_match_iff (some r) k u =
    (λ h. (r, refl, h), λ (rest, e, f). let same : r ≡ rest = ground (arith, e) in rw same f)

pub cut_prefix_iff : (s t r : Bytes) → (cut_prefix s t ≡ some r) ↔ (s ≡ t ++ r)
cut_prefix_iff s t r = (cut_prefix_sound s t r, λ e. rw e (cut_prefix-append t r))

pub AllIn-weaken :
    (p q : ℕ → Bool) → ((c : ℕ) → p c ≡ true → q c ≡ true) → (s : Bytes) → AllIn p s → AllIn q s
AllIn-weaken p q f [] all = tt
AllIn-weaken p q f (c ∷ s) (h, all) = (f c h, AllIn-weaken p q f s all)
