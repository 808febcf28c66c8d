-- ===== src/Damon/Detect/Version.antt =====
-- `kernelAtLeast` compares the version numbers of a release.
use memaudit.Base.{
  ℕ, suc, zero, ◌-◌, ◌^◌, ◌≤◌, ◌<◌, ◌≡◌, ◌↔◌, ◌⊎◌, refl, true, false, [], ◌∷◌, ◌++◌, Bytes, ok, ℤ,
  atoi, format_uint, format_uint-digits, parse_uint, parse_uint-format_uint, All, InBase, arith,
  ◌==◌, digit_value, some,
}
use memaudit.Damon.Detect.{split_n, kernel_at_least}

InBase-dot : (c : ℕ) → InBase 10 c → (c == b'.') ≡ false
unfolding digit_value
InBase-dot c h = ground arith

InBase-sign : (c : ℕ) → InBase 10 c → ((c == b'-') ≡ false) × ((c == b'+') ≡ false)
unfolding digit_value
InBase-sign c h = ground arith

split_n-digits :
    (n : ℕ) (s rest : Bytes)
    → All (InBase 10) s
    → split_n b'.' (suc (suc n)) (s ++ b'.' ∷ rest) ≡ s ∷ split_n b'.' (suc n) rest
unfolding split_n
split_n-digits n [] rest h = refl
split_n-digits n (c ∷ s) rest (h, hs) = ground (arith, InBase-dot c h, split_n-digits n s rest hs)

atoi-digits :
    (s : Bytes) (n : ℕ)
    → All (InBase 10) s
    → parse_uint 10 (2 ^ 63 - 1) s ≡ ok n
    → atoi s ≡ some (ℤ.pos n)
atoi-digits [] n h p = absurd (unfold parse_uint in cc p)
atoi-digits (c ∷ s) n (h, hs) p = unfold atoi in ground (arith, InBase-sign c h)

atoi-format_uint : (n : ℕ) → n < 2 ^ 63 → atoi (format_uint n) ≡ some (ℤ.pos n)
atoi-format_uint n h =
    atoi-digits (format_uint n) n (format_uint-digits n)
      (parse_uint-format_uint (2 ^ 63 - 1) n (omega arith))

-- The release `major.minor.rest` is at least `want_major.want_minor` exactly if it is so in the
-- order of versions, whatever stands behind the second dot.
pub kernel_at_least_iff :
    (major minor want_major want_minor : ℕ) (rest : Bytes)
    → major < 2 ^ 63
    → minor < 2 ^ 63
    → (kernel_at_least
          (format_uint major ++ b'.' ∷ (format_uint minor ++ b'.' ∷ rest))
          (ℤ.pos want_major)
          (ℤ.pos want_minor)
        ≡ true)
      ↔ ((want_major < major) ⊎ ((major ≡ want_major) × (want_minor ≤ minor)))
kernel_at_least_iff major minor want_major want_minor rest a b =
    let first =
      split_n-digits 1 (format_uint major) (format_uint minor ++ b'.' ∷ rest)
        (format_uint-digits major) in
    let second = split_n-digits zero (format_uint minor) rest (format_uint-digits minor) in
    unfold kernel_at_least in
    rw (first, second, atoi-format_uint major a, atoi-format_uint minor b)
      (λ h. ground arith, λ h. ground arith)
