-- ===== src/Damon/Detect.antt =====
-- pkg/damon/damon.go: `DetectAt` and `kernelAtLeast`.
pub mod Version
use memaudit.Base.{
  ℕ, Bool, true, false, List, [], ◌∷◌, Option, none, some, Bytes, Result, ok, err, ◌>>=◌, ℤ, ltb_ℤ,
  leb_ℤ, eqb_ℤ, atoi, trim_space, if◌then◌else◌, ◌==◌, not, map_err, digits_value, scan_digits, suc,
  zero, ◌-◌,
}

pub record Caps : Type 0 where
  pub sysfs : Bool
  pub paddr : Bool
  pub tried_regions : Bool

pub data DetectError : Type 0 where
  no_release : DetectError

abbrev pub onto : ℕ → List Bytes → List Bytes
onto c [] = (c ∷ []) ∷ []
onto c (p ∷ parts) = (c ∷ p) ∷ parts

-- strings.SplitN: at most `n` parts, the last of which is all that is left.
unfoldable pub split_n : ℕ → ℕ → Bytes → List Bytes
split_n sep zero s = []
split_n sep (suc zero) s = s ∷ []
split_n sep (suc (suc n)) [] = [] ∷ []
split_n sep (suc (suc n)) (c ∷ s) =
    let cut = [] ∷ split_n sep (suc n) s in
    let more = onto c (split_n sep (suc (suc n)) s) in if c == sep then cut else more

abbrev pub at_least : ℤ → ℤ → Option ℤ → Option ℤ → Bool
at_least want_major want_minor (some major) (some minor) =
    if not (eqb_ℤ major want_major) then ltb_ℤ want_major major else leb_ℤ want_minor minor
at_least want_major want_minor none minor = false
at_least want_major want_minor (some major) none = false

abbrev pub parts_at_least : ℤ → ℤ → List Bytes → Bool
parts_at_least want_major want_minor [] = false
parts_at_least want_major want_minor (p ∷ []) = false
parts_at_least want_major want_minor (p ∷ q ∷ rest) =
    at_least want_major want_minor (atoi p) (atoi q)

unfoldable pub kernel_at_least : Bytes → ℤ → ℤ → Bool
kernel_at_least release want_major want_minor =
    parts_at_least want_major want_minor (split_n b'.' 3 release)

-- `nr_kdamonds` says whether the file is there, `osrelease` is the content of the release file.
unfoldable pub detect_at : Bool → Result DetectError Bytes → Result DetectError Caps
unfolding kernel_at_least split_n atoi
detect_at false osrelease = ok (record { sysfs = false; paddr = false; tried_regions = false })
detect_at true osrelease = do
  b ← osrelease
  ok (record {
    sysfs = true;
    paddr = true;
    tried_regions = kernel_at_least (trim_space b) (ℤ.pos 6) (ℤ.pos 2);
  })
