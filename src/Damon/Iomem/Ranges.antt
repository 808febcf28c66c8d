-- ===== src/Damon/Iomem/Ranges.antt =====
-- Where the ranges of `parseIomemReader` come from.
use memaudit.Base.{
  ℕ, ◌≡◌, inl, inr, ap, subst, ◌∙◌, true, false, ◌&&◌, ◌==◌, List, [], ◌∷◌, ◌++◌, Option, some,
  Option-cases, Bytes, bytes_eq, bytes_eq_sound, codes, cut_prefix, cut_prefix_sound, ok,
  parse_uint, max_uint64, arith, Bool-cases, Result-cases,
}
use memaudit.Damon.Session.{AddrRange}
use memaudit.Damon.Iomem.{cut, is_indented, parse_addrs, parse_line, parse_lines}

-- `cut` takes a text apart at the separator.
pub cut_sound :
    (s sep before behind : Bytes)
    → cut s sep ≡ some (before, behind)
    → s ≡ before ++ (sep ++ behind)
unfolding cut
cut_sound [] sep before behind h = elim (Option-cases (cut_prefix [] sep)) [
  | inl e ↦ absurd (ground (arith, e))
  | inr (rest, e) ↦ ground (arith, cut_prefix_sound [] sep rest e)
]
cut_sound (c ∷ s) sep before behind h = elim (Option-cases (cut_prefix (c ∷ s) sep)) [
  | inr (rest, e) ↦ ground (arith, cut_prefix_sound (c ∷ s) sep rest e)
  | inl e ↦ elim (Option-cases (cut s sep)) [
    | inl f ↦ absurd (ground (arith, e, f))
    | inr ((b, r), f) ↦ ground (arith, cut_sound s sep b r f)
  ]
]

-- The line `start-end : System RAM`, with the numbers in base 16 and not both zero.
pub record IsRam (line : Bytes) (r : AddrRange) : Type 0 where
  pub start_hex : Bytes
  pub end_hex : Bytes
  pub text : line ≡ (start_hex ++ (codes "-" ++ end_hex)) ++ (codes " : " ++ codes "System RAM")
  pub start_is : parse_uint 16 max_uint64 start_hex ≡ ok r.start
  pub end_is : parse_uint 16 max_uint64 end_hex ≡ ok r.end
  pub unmasked : ((r.start == 0) && (r.end == 0)) ≡ false
  pub top_level : is_indented line ≡ false

-- Ranges of some of the lines, in their order.
pub data AreRam : List Bytes → List AddrRange → Type 0 where
  none_left : AreRam [] []
  pass :
      {line : Bytes} {lines : List Bytes} {ranges : List AddrRange}
      → AreRam lines ranges
      → AreRam (line ∷ lines) ranges
  ram :
      {line : Bytes} {r : AddrRange} {lines : List Bytes} {ranges : List AddrRange}
      → IsRam line r
      → AreRam lines ranges
      → AreRam (line ∷ lines) (r ∷ ranges)

module _ (line addrs label a b : Bytes) (start end : ℕ)
    (e : cut line (codes " : ") ≡ some (addrs, label))
    (is_ram : bytes_eq label (codes "System RAM") ≡ true)
    (f : cut addrs (codes "-") ≡ some (a, b)) where
  line_text : line ≡ (a ++ (codes "-" ++ b)) ++ (codes " : " ++ codes "System RAM")
  line_text =
      cut_sound line (codes " : ") addrs label e
      ∙ ap (λ (l : Bytes). addrs ++ (codes " : " ++ l))
          (bytes_eq_sound label (codes "System RAM") is_ram)
      ∙ ap (λ (l : Bytes). l ++ (codes " : " ++ codes "System RAM"))
          (cut_sound addrs (codes "-") a b f)

parse_line-IsRam : (line : Bytes) (r : AddrRange) → parse_line line ≡ ok (some r) → IsRam line r
unfolding parse_line parse_addrs
parse_line-IsRam line r h = elim (Bool-cases (is_indented line)) [
  | inl e ↦ absurd (ground (arith, e))
  | inr top ↦ elim (Option-cases (cut line (codes " : "))) [
    | inl e ↦ absurd (ground (arith, top, e))
    | inr ((addrs, label), e) ↦ elim (Bool-cases (bytes_eq label (codes "System RAM"))) [
      | inr other ↦ absurd (ground (arith, top, e, other))
      | inl ram_ ↦ elim (Option-cases (cut addrs (codes "-"))) [
        | inl f ↦ absurd (ground (arith, top, e, ram_, f))
        | inr ((a, b), f) ↦ elim (Result-cases (parse_uint 16 max_uint64 a)) [
          | inr (x, p) ↦ absurd (ground (arith, top, e, ram_, f, p))
          | inl (start, p) ↦ elim (Result-cases (parse_uint 16 max_uint64 b)) [
            | inr (x, q) ↦ absurd (ground (arith, top, e, ram_, f, p, q))
            | inl (end, q) ↦ elim (Bool-cases ((start == 0) && (end == 0))) [
              | inl z ↦ absurd (ground (arith, top, e, ram_, f, p, q, z))
              | inr nz ↦
                  let same : record { start = start; end = end } ≡ r =
                    ground (arith, top, e, ram_, f, p, q, nz) in
                  subst (λ (x : AddrRange). IsRam line x) same
                    (record {
                      start_hex = a;
                      end_hex = b;
                      text = line_text line addrs label a b start end e ram_ f;
                      start_is = p;
                      end_is = q;
                      unmasked = nz;
                      top_level = top;
                    })
            ]
          ]
        ]
      ]
    ]
  ]
]

-- Every range that the parser returns, in order, is that of a top-level line `start-end : System RAM` of
-- the file with these numbers, which are not both zero.
pub parse_lines-AreRam :
    (lines : List Bytes) (ranges : List AddrRange)
    → parse_lines lines ≡ ok ranges
    → AreRam lines ranges
unfolding parse_lines
parse_lines-AreRam [] ranges h = let e : ranges ≡ [] = ground arith in rw e none_left
parse_lines-AreRam (line ∷ lines) ranges h = elim (Result-cases (parse_line line)) [
  | inr (x, e) ↦ absurd (ground (arith, e))
  | inl (found, e) ↦ elim (Result-cases (parse_lines lines)) [
    | inr (x, f) ↦ absurd (ground (arith, e, f))
    | inl (rest, f) ↦ elim (Option-cases found) [
      | inl n ↦
          let same : ranges ≡ rest = ground (arith, e, f, n) in
          rw same (pass (parse_lines-AreRam lines rest f))
      | inr (r, n) ↦
          let same : ranges ≡ r ∷ rest = ground (arith, e, f, n) in
          rw same (
            ram (parse_line-IsRam line r (e ∙ ap (λ (o : Option AddrRange). ok o) n))
              (parse_lines-AreRam lines rest f))
    ]
  ]
]
