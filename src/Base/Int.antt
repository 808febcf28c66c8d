-- ===== src/Base/Int.antt =====
-- Go's `int` where the program reads signed numbers: `strconv.Atoi` and `Itoa`.
use Prim.Native.Nat.{ℕ, zero, suc, ◌-◌, ◌^◌}
use mathlib.Core.Path.{◌≡◌, refl}
use mathlib.Core.Bool.{Bool, true, false}
use mathlib.Core.List.{[], ◌∷◌}
use mathlib.Core.Option.{Option, none, some}
use native.Mathlib.Omega.{arith}
use memaudit.Base.Core.{if◌then◌else◌, ltb, leb, ◌==◌, ok, err}
use memaudit.Base.Text.{Bytes}
use memaudit.Base.Decimal.{parse_uint, format_uint}

-- `negsuc n` is -(n + 1).
pub data ℤ : Type 0 where
  pos : ℕ → ℤ
  negsuc : ℕ → ℤ

abbrev pub leb_ℤ : ℤ → ℤ → Bool
leb_ℤ (pos a) (pos b) = leb a b
leb_ℤ (pos a) (negsuc b) = false
leb_ℤ (negsuc a) (pos b) = true
leb_ℤ (negsuc a) (negsuc b) = leb b a

abbrev pub ltb_ℤ : ℤ → ℤ → Bool
ltb_ℤ (pos a) (pos b) = ltb a b
ltb_ℤ (pos a) (negsuc b) = false
ltb_ℤ (negsuc a) (pos b) = true
ltb_ℤ (negsuc a) (negsuc b) = ltb b a

abbrev pub eqb_ℤ : ℤ → ℤ → Bool
eqb_ℤ (pos a) (pos b) = a == b
eqb_ℤ (pos a) (negsuc b) = false
eqb_ℤ (negsuc a) (pos b) = false
eqb_ℤ (negsuc a) (negsuc b) = a == b

abbrev negated : ℕ → ℤ
negated zero = pos 0
negated (suc n) = negsuc n

abbrev read : ℕ → (ℕ → ℤ) → Bytes → Option ℤ
read limit wrap s = elim (parse_uint 10 limit s) [ ok n ↦ some (wrap n) | err e ↦ none ]

-- A sign or none, then digits, in the range of an int64. The error's kind is not used.
unfoldable pub atoi : Bytes → Option ℤ
atoi [] = none
atoi (c ∷ s) =
    if c == b'-'
    then read (2 ^ 63) negated s
    else if c == b'+'
    then read (2 ^ 63 - 1) (λ n. pos n) s
    else read (2 ^ 63 - 1) (λ n. pos n) (c ∷ s)

unfoldable pub itoa : ℤ → Bytes
itoa (pos n) = format_uint n
itoa (negsuc n) = b'-' ∷ format_uint (suc n)

pub leb_ℤ-total : (a b : ℤ) → leb_ℤ a b ≡ false → leb_ℤ b a ≡ true
leb_ℤ-total (pos a) (pos b) h = ground arith
leb_ℤ-total (pos a) (negsuc b) h = refl
leb_ℤ-total (negsuc a) (pos b) h = ground arith
leb_ℤ-total (negsuc a) (negsuc b) h = ground arith

pub leb_ℤ-trans : (a b c : ℤ) → leb_ℤ a b ≡ true → leb_ℤ b c ≡ true → leb_ℤ a c ≡ true
leb_ℤ-trans (pos a) (pos b) (pos c) h k = ground arith
leb_ℤ-trans (negsuc a) (negsuc b) (negsuc c) h k = ground arith
leb_ℤ-trans (negsuc a) b (pos c) h k = refl
leb_ℤ-trans (pos a) (negsuc b) c h k = ground arith
leb_ℤ-trans (pos a) (pos b) (negsuc c) h k = ground arith
leb_ℤ-trans (negsuc a) (pos b) (negsuc c) h k = ground arith
