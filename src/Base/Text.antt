-- ===== src/Base/Text.antt =====
-- Texts as lists of bytes, and what the program uses of Go's `strings`, on ASCII texts.
use Prim.Native.Char.{code}
use Prim.Native.Nat.{ℕ}
use Prim.Native.String.{String}
use mathlib.Core.Path.{◌≡◌, refl}
use mathlib.Core.Logic.{◌↔◌}
use mathlib.Core.Bool.{Bool, true, false, ◌||◌, ◌&&◌}
use mathlib.Core.List.{List, [], ◌∷◌, ◌++◌, reverse}
use mathlib.Core.Option.{Option, none, some}
use native.Mathlib.Omega.{arith}
use memaudit.Base.Core.{◌==◌, if◌then◌else◌, leb}

abbrev pub Bytes : Type 0
Bytes = List ℕ

-- The bytes of an ASCII literal.
abbrev pub codes : String → Bytes
codes String.[] = []
codes (String.◌∷◌ c s) = code c ∷ codes s

abbrev pub bytes_eq : Bytes → Bytes → Bool
bytes_eq [] [] = true
bytes_eq [] (d ∷ t) = false
bytes_eq (c ∷ s) [] = false
bytes_eq (c ∷ s) (d ∷ t) = (c == d) && bytes_eq s t

pub bytes_eq_refl : (s : Bytes) → bytes_eq s s ≡ true
bytes_eq_refl [] = refl
bytes_eq_refl (c ∷ s) = ground (arith, bytes_eq_refl s)

pub bytes_eq_sound : (s t : Bytes) → bytes_eq s t ≡ true → s ≡ t
bytes_eq_sound [] [] h = refl
bytes_eq_sound [] (d ∷ t) h = cc
bytes_eq_sound (c ∷ s) [] h = cc
bytes_eq_sound (c ∷ s) (d ∷ t) h = ground (arith, bytes_eq_sound s t)

pub bytes_eq_iff : (s t : Bytes) → (bytes_eq s t ≡ true) ↔ (s ≡ t)
bytes_eq_iff s t = (bytes_eq_sound s t, λ e. rw e (bytes_eq_refl t))

-- strings.HasPrefix with the rest behind it: `CutPrefix`.
abbrev pub cut_prefix : Bytes → Bytes → Option Bytes
cut_prefix s [] = some s
cut_prefix [] (d ∷ t) = none
cut_prefix (c ∷ s) (d ∷ t) = let rest = cut_prefix s t in if c == d then rest else none

-- strings.CutSuffix: the text before `t` where the text ends in `t`.
abbrev pub cut_suffix : Bytes → Bytes → Option Bytes
cut_suffix [] t = if bytes_eq [] t then some [] else none
cut_suffix (c ∷ s) t =
    let rest = cut_suffix s t in
    if bytes_eq (c ∷ s) t then some [] else elim rest [ none ↦ none | some r ↦ some (c ∷ r) ]

-- The bytes that unicode.IsSpace accepts among the ASCII bytes.
abbrev pub is_space : ℕ → Bool
is_space c = (c == 32) || (leb 9 c && leb c 13)

abbrev pub trim_left : Bytes → Bytes
trim_left [] = []
trim_left (c ∷ s) = let rest = trim_left s in if is_space c then rest else c ∷ s

-- strings.TrimSpace
abbrev pub trim_space : Bytes → Bytes
trim_space s = reverse (trim_left (reverse (trim_left s)))

-- strings.Split at one byte: always at least one part.
abbrev pub split_on : ℕ → Bytes → List Bytes
split_on sep [] = [] ∷ []
split_on sep (c ∷ s) =
    let rest = split_on sep s in
    if c == sep then [] ∷ rest else elim rest [ [] ↦ (c ∷ []) ∷ [] | p ∷ ps ↦ (c ∷ p) ∷ ps ]

-- strings.Fields: the runs of bytes that are no space. `cur` is the run that is open.
abbrev pub fields_from : Bytes → Bytes → List Bytes
fields_from [] [] = []
fields_from (d ∷ cur) [] = (d ∷ cur) ∷ []
fields_from [] (c ∷ s) =
    let skip = fields_from [] s in
    let start = fields_from (c ∷ []) s in if is_space c then skip else start
fields_from (d ∷ cur) (c ∷ s) =
    let close = (d ∷ cur) ∷ fields_from [] s in
    let more = fields_from ((d ∷ cur) ++ c ∷ []) s in if is_space c then close else more

abbrev pub fields : Bytes → List Bytes
fields s = fields_from [] s

-- bufio.Scanner with ScanLines: the lines without their "\n" and without one "\r" before it; a
-- text that ends in "\n" has no empty last line.
abbrev pub drop_cr : Bytes → Bytes
drop_cr [] = []
drop_cr (c ∷ []) = if c == 13 then [] else c ∷ []
drop_cr (c ∷ d ∷ s) = c ∷ drop_cr (d ∷ s)

abbrev pub raw_lines : Bytes → List Bytes
raw_lines [] = []
raw_lines (c ∷ s) =
    let rest = raw_lines s in
    if c == 10 then [] ∷ rest else elim rest [ [] ↦ (c ∷ []) ∷ [] | l ∷ ls ↦ (c ∷ l) ∷ ls ]
