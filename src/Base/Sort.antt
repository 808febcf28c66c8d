-- ===== src/Base/Sort.antt =====
-- Sorting as the program uses it (`sort.Ints`, `sort.Strings`, `sort.Slice`): by insertion, for any
-- total order given as a test.
use mathlib.Core.Path.{◌≡◌, refl, sym, ap, subst}
use mathlib.Core.Logic.{inl, inr}
use mathlib.Core.Bool.{Bool, true, false}
use mathlib.Core.List.{List, [], ◌∷◌, Perm}
use mathlib.Core.List.Perm
use memaudit.Base.Core.{if◌then◌else◌, Bool-cases}
use memaudit.Base.Lists.{All}

module _ {ℓ} {A : Type ℓ} (le : A → A → Bool) where
  unfoldable pub insert : A → List A → List A
  insert x [] = x ∷ []
  insert x (y ∷ ys) = let later = y ∷ insert x ys in if le x y then x ∷ y ∷ ys else later

  unfoldable pub sort : List A → List A
  unfolding insert
  sort [] = []
  sort (x ∷ xs) = insert x (sort xs)

  -- Each element is below all later ones.
  abbrev pub IsSorted : List A → Type 0
  IsSorted [] = Unit
  IsSorted (x ∷ xs) = All (λ y. le x y ≡ true) xs × IsSorted xs

  pub insert-perm : (x : A) (xs : List A) → Perm (insert x xs) (x ∷ xs)
  unfolding insert
  insert-perm x [] = Perm.refl (x ∷ [])
  insert-perm x (y ∷ ys) = elim (Bool-cases (le x y)) [
    | inl e ↦ rw e (Perm.refl (x ∷ y ∷ ys))
    | inr e ↦ rw e (Perm.trans (Perm.cons y (insert-perm x ys)) (Perm.swap x y ys))
  ]

  pub sort-perm : (xs : List A) → Perm (sort xs) xs
  unfolding sort
  sort-perm [] = Perm.refl []
  sort-perm (x ∷ xs) = Perm.trans (insert-perm x (sort xs)) (Perm.cons x (sort-perm xs))

  All-insert {κ} : (P : A → Type κ) (x : A) (xs : List A) → P x → All P xs → All P (insert x xs)
  unfolding insert
  All-insert P x [] px all = (px, tt)
  All-insert P x (y ∷ ys) px all = elim (Bool-cases (le x y)) [
    | inl e ↦ rw e (px, all)
    | inr e ↦ rw e (all.0, All-insert P x ys px all.1)
  ]

  module _ (total : (x y : A) → le x y ≡ false → le y x ≡ true)
      (trans : (x y z : A) → le x y ≡ true → le y z ≡ true → le x z ≡ true) where
    below :
        (x y : A) (ys : List A)
        → le x y ≡ true
        → All (λ z. le y z ≡ true) ys
        → All (λ z. le x z ≡ true) ys
    below x y [] h all = tt
    below x y (z ∷ ys) h all = (trans x y z h all.0, below x y ys h all.1)

    insert-IsSorted : (x : A) (xs : List A) → IsSorted xs → IsSorted (insert x xs)
    unfolding insert
    insert-IsSorted x [] s = (tt, tt)
    insert-IsSorted x (y ∷ ys) s = elim (Bool-cases (le x y)) [
      | inl e ↦ rw e ((e, below x y ys e s.0), s)
      | inr e ↦
          rw e (All-insert (λ z. le y z ≡ true) x ys (total x y e) s.0, insert-IsSorted x ys s.1)
    ]

    pub sort-IsSorted : (xs : List A) → IsSorted (sort xs)
    unfolding sort
    sort-IsSorted [] = tt
    sort-IsSorted (x ∷ xs) = insert-IsSorted x (sort xs) (sort-IsSorted xs)

  -- A sorted list is left as it is.
  pub sort-of_sorted : (xs : List A) → IsSorted xs → sort xs ≡ xs
  unfolding sort
  sort-of_sorted [] s = refl
  sort-of_sorted (x ∷ []) s = unfold insert in refl
  sort-of_sorted (x ∷ y ∷ ys) s = rw (sort-of_sorted (y ∷ ys) s.1) (unfold insert in rw s.0.0)

  -- The order in which equal lists of elements are handed over does not show in the result.
  module _ (total : (x y : A) → le x y ≡ false → le y x ≡ true)
      (trans : (x y z : A) → le x y ≡ true → le y z ≡ true → le x z ≡ true)
      (antisym : (x y : A) → le x y ≡ true → le y x ≡ true → x ≡ y) where
    insert_both :
        (x y : A) (xs : List A) → le x y ≡ true → insert x (insert y xs) ≡ insert y (insert x xs)
    unfolding insert
    insert_both x y [] xy = elim (Bool-cases (le y x)) [
      | inl yx ↦
          subst (λ w. insert x (insert w []) ≡ insert w (insert x [])) (antisym x y xy yx) refl
      | inr not_yx ↦ rw (xy, not_yx) refl
    ]
    insert_both x y (z ∷ zs) xy = elim (Bool-cases (le y x)) [
      | inl yx ↦
          subst (λ w. insert x (insert w (z ∷ zs)) ≡ insert w (insert x (z ∷ zs)))
            (antisym x y xy yx) refl
      | inr not_yx ↦ elim (Bool-cases (le y z)) [
        | inl yz ↦ rw (yz, trans x y z xy yz, xy, not_yx, yz) refl
        | inr not_yz ↦ elim (Bool-cases (le x z)) [
          | inl xz ↦ rw (not_yz, xz, not_yx, not_yz) refl
          | inr not_xz ↦ rw (not_yz, not_xz, not_yz) (ap (λ l. z ∷ l) (insert_both x y zs xy))
        ]
      ]
    ]

    pub insert_swap : (x y : A) (xs : List A) → insert x (insert y xs) ≡ insert y (insert x xs)
    insert_swap x y xs = elim (Bool-cases (le x y)) [
      | inl xy ↦ insert_both x y xs xy
      | inr not_xy ↦ sym (insert_both y x xs (total x y not_xy))
    ]
