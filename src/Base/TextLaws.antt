-- ===== src/Base/TextLaws.antt =====
-- Laws of the text functions.
use mathlib.Core.Path.{◌≡◌, refl, ap}
use mathlib.Core.Logic.{◌≢◌, inl, inr}
use mathlib.Core.Bool.{false}
use mathlib.Core.List.{[], ◌∷◌, ◌++◌}
use mathlib.Core.Option.{some}
use native.Mathlib.Omega.{arith}
use memaudit.Base.Core.{Bool-cases, Option-cases}
use memaudit.Base.Lists.{length, length-append}
use memaudit.Base.Text.{Bytes, bytes_eq, bytes_eq_refl, bytes_eq_sound, cut_prefix, cut_suffix}

pub bytes_eq-false : (s t : Bytes) → s ≢ t → bytes_eq s t ≡ false
bytes_eq-false s t h = elim (Bool-cases (bytes_eq s t)) [
  | inl e ↦ absurd (h (bytes_eq_sound s t e))
  | inr e ↦ e
]

pub cut_suffix_sound : (s t r : Bytes) → cut_suffix s t ≡ some r → s ≡ r ++ t
cut_suffix_sound [] t r h = ground (arith, bytes_eq_sound [] t)
cut_suffix_sound (c ∷ s) t r h = elim (Bool-cases (bytes_eq (c ∷ s) t)) [
  | inl e ↦ cc (rw e at h, bytes_eq_sound (c ∷ s) t e)
  | inr e ↦ elim (Option-cases (cut_suffix s t)) [
    | inl n ↦ absurd (ground arith)
    | inr (r', p) ↦ ground (arith, cut_suffix_sound s t r' p)
  ]
]

pub cut_suffix-append : (r t : Bytes) → cut_suffix (r ++ t) t ≡ some r
cut_suffix-append [] [] = refl
cut_suffix-append [] (d ∷ t) = rw (bytes_eq_refl (d ∷ t))
cut_suffix-append (c ∷ r) t =
    rw (bytes_eq-false (c ∷ (r ++ t)) t (λ e. omega (arith, ap length e, length-append r t)))
      (rw (cut_suffix-append r t))

-- Ends of the same length in one text are the same.
pub append-right_inj : (r q t u : Bytes) → length t ≡ length u → r ++ t ≡ q ++ u → (r ≡ q) × (t ≡ u)
append-right_inj [] [] t u l e = (refl, e)
append-right_inj [] (d ∷ q) t u l e = absurd (omega (arith, ap length e, length-append q u))
append-right_inj (c ∷ r) [] t u l e = absurd (omega (arith, ap length e, length-append r t))
append-right_inj (c ∷ r) (d ∷ q) t u l e = ground (arith, append-right_inj r q t u)

pub cut_prefix-append : (t r : Bytes) → cut_prefix (t ++ r) t ≡ some r
cut_prefix-append [] r = refl
cut_prefix-append (d ∷ t) r = ground (arith, cut_prefix-append t r)

pub cut_prefix_sound : (s t r : Bytes) → cut_prefix s t ≡ some r → s ≡ t ++ r
cut_prefix_sound [] [] r h = cc
cut_prefix_sound (c ∷ s) [] r h = cc
cut_prefix_sound [] (d ∷ t) r h = cc
cut_prefix_sound (c ∷ s) (d ∷ t) r h = ground (arith, cut_prefix_sound s t r)
