-- ===== src/Base/Decimal.antt =====
-- Go's `strconv.ParseUint` and `FormatUint`.
use Prim.Native.Nat.{ℕ, zero, suc, ◌+◌, ◌-◌, ◌*◌, ◌/◌, ◌%◌, ◌≤◌, ◌<◌}
use mathlib.Core.Bool.{◌&&◌}
use mathlib.Core.Path.{◌≡◌, refl, ap, ◌∙◌}
use mathlib.Core.Logic.{◌≢◌, ◌↔◌}
use mathlib.Core.List.{List, [], ◌∷◌}
use native.Mathlib.Omega.{arith}
use memaudit.Base.Core.{Result, ok, err, ltb, leb, if◌then◌else◌}
use memaudit.Base.Text.{Bytes}
use memaudit.Base.Lists.{All}

pub data NumError : Type 0 where
  syntax range : NumError

-- The value of a digit in bases up to 36; 99 for any other byte.
unfoldable pub digit_value : ℕ → ℕ
digit_value c =
    if leb b'0' c && leb c b'9'
    then c - b'0'
    else if leb b'a' c && leb c b'z'
    then c - b'a' + 10
    else if leb b'A' c && leb c b'Z'
    then c - b'A' + 10
    else 99

unfoldable pub scan_digits : ℕ → ℕ → ℕ → Bytes → Result NumError ℕ
scan_digits base limit n [] = ok n
scan_digits base limit n (c ∷ s) =
    let next = scan_digits base limit (n * base + digit_value c) s in
    if leb base (digit_value c)
    then err NumError.syntax
    else if ltb limit (n * base + digit_value c)
    then err NumError.range
    else next

-- `base` is 10 or 16, `limit` is 2 ^ bits - 1.
unfoldable pub parse_uint : ℕ → ℕ → Bytes → Result NumError ℕ
unfolding scan_digits digit_value
parse_uint base limit [] = err NumError.syntax
parse_uint base limit (c ∷ s) = scan_digits base limit 0 (c ∷ s)

-- The number that the digits spell behind `n`, with no bound.
abbrev pub digits_value : ℕ → ℕ → Bytes → ℕ
digits_value base n [] = n
digits_value base n (c ∷ s) = digits_value base (n * base + digit_value c) s

-- `FormatUint(n, 10)`. The fuel is above the number, and a round divides it by ten.
unfoldable pub format_from : ℕ → ℕ → Bytes → Bytes
format_from zero n out = out
format_from (suc f) n out =
    let rest = format_from f (n / 10) ((b'0' + n % 10) ∷ out) in
    if ltb n 10 then (b'0' + n) ∷ out else rest

unfoldable pub format_uint : ℕ → Bytes
unfolding format_from
format_uint n = format_from (suc n) n []

abbrev pub IsDigit : ℕ → Type 0
IsDigit c = (b'0' ≤ c) × (c ≤ b'9')

abbrev pub InBase : ℕ → ℕ → Type 0
InBase base c = digit_value c < base

module _ (base limit : ℕ) where
  scan_digits_sound :
      (s : Bytes) (n r : ℕ)
      → n ≤ limit
      → scan_digits base limit n s ≡ ok r
      → All (InBase base) s × (r ≡ digits_value base n s) × (r ≤ limit)
  unfolding scan_digits
  scan_digits_sound [] n r fits h = ground arith
  scan_digits_sound (c ∷ s) n r fits h =
      ground (arith, scan_digits_sound s (n * base + digit_value c) r)

  le-digits_value : (s : Bytes) (n : ℕ) → 1 ≤ base → n ≤ digits_value base n s
  le-digits_value [] n h = omega arith
  le-digits_value (c ∷ s) n h = grind (arith, le-digits_value s (n * base + digit_value c) h)

  scan_digits_complete :
      (s : Bytes) (n : ℕ)
      → 1 ≤ base
      → All (InBase base) s
      → digits_value base n s ≤ limit
      → scan_digits base limit n s ≡ ok (digits_value base n s)
  unfolding scan_digits
  scan_digits_complete [] n b h fits = refl
  scan_digits_complete (c ∷ s) n b (hc, hs) fits = ground (
    arith,
    scan_digits_complete s (n * base + digit_value c) b hs fits,
    le-digits_value s (n * base + digit_value c) b,
  )

cons-ne-nil {ℓ} : {A : Type ℓ} (x : A) (xs : List A) → (x ∷ xs) ≢ []
cons-ne-nil x xs e = cc

-- What `ParseUint` accepts, and that the result is the number that was written.
pub parse_uint_sound :
    (base limit : ℕ) (text : Bytes) {r : ℕ}
    → parse_uint base limit text ≡ ok r
    → (text ≢ []) × All (InBase base) text × (r ≡ digits_value base 0 text) × (r ≤ limit)
unfolding parse_uint
parse_uint_sound base limit [] read = cc
parse_uint_sound base limit (c ∷ s) {r} read =
    let scanned = scan_digits_sound base limit (c ∷ s) 0 r (omega arith) read in
    (cons-ne-nil c s, scanned.0, scanned.1, scanned.2)

pub parse_uint_complete :
    (base limit : ℕ) (s : Bytes)
    → 1 ≤ base
    → s ≢ []
    → All (InBase base) s
    → digits_value base 0 s ≤ limit
    → parse_uint base limit s ≡ ok (digits_value base 0 s)
parse_uint_complete base limit [] b ne h fits = absurd (ne refl)
parse_uint_complete base limit (c ∷ s) b ne h fits =
    unfold parse_uint in scan_digits_complete base limit (c ∷ s) 0 b h fits

digit_value_of_digit : (d : ℕ) → d < 10 → digit_value (b'0' + d) ≡ d
unfolding digit_value
digit_value_of_digit d h = ground arith

digit_value_decimal : (c : ℕ) → (digit_value c < 10) ↔ IsDigit c
unfolding digit_value
digit_value_decimal c = (λ h. ground arith, λ h. ground arith)

format_from_value :
    (f n : ℕ) (out : Bytes)
    → n < f
    → digits_value 10 0 (format_from f n out) ≡ digits_value 10 n out
unfolding format_from
format_from_value zero n out h = absurd (omega arith)
format_from_value (suc f) n out h = ground (
  arith,
  format_from_value f (n / 10) ((b'0' + n % 10) ∷ out),
  digit_value_of_digit n,
  digit_value_of_digit (n % 10),
)

format_from_digits :
    (f n : ℕ) (out : Bytes) → n < f → All (InBase 10) out → All (InBase 10) (format_from f n out)
unfolding format_from
format_from_digits zero n out h a = a
format_from_digits (suc f) n out h a = ground (
  arith,
  format_from_digits f (n / 10) ((b'0' + n % 10) ∷ out),
  digit_value_of_digit n,
  digit_value_of_digit (n % 10),
)

format_from-ne-nil : (f n : ℕ) (out : Bytes) → n < f → format_from f n out ≢ []
unfolding format_from
format_from-ne-nil zero n out h = absurd (omega arith)
format_from-ne-nil (suc f) n out h =
    ground
      (arith, format_from-ne-nil f (n / 10) ((b'0' + n % 10) ∷ out), cons-ne-nil (b'0' + n) out)

pub format_uint-digits : (n : ℕ) → All (InBase 10) (format_uint n)
unfolding format_uint
format_uint-digits n = format_from_digits (suc n) n [] (omega arith) tt

pub format_uint-ne-nil : (n : ℕ) → format_uint n ≢ []
unfolding format_uint
format_uint-ne-nil n = format_from-ne-nil (suc n) n [] (omega arith)

pub format_uint-value : (n : ℕ) → digits_value 10 0 (format_uint n) ≡ n
unfolding format_uint
format_uint-value n = format_from_value (suc n) n [] (omega arith)

-- A number that fits is read back from its decimal print.
pub parse_uint-format_uint : (limit n : ℕ) → n ≤ limit → parse_uint 10 limit (format_uint n) ≡ ok n
parse_uint-format_uint limit n h =
    parse_uint_complete 10 limit (format_uint n) (omega arith) (format_uint-ne-nil n)
      (format_uint-digits n) (rw format_uint-value h)
    ∙ ap ok (format_uint-value n)
