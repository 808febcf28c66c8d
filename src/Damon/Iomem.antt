-- ===== src/Damon/Iomem.antt =====
-- pkg/damon/iomem.go: `parseIomemReader`, on the text that the reader gives; its lines are below the
-- limit of `bufio.Scanner`.
pub mod Ranges
use memaudit.Base.{
  ℕ, zero, suc, Bool, true, false, ◌&&◌, ◌||◌, ◌==◌, List, [], ◌∷◌, map, Option, none, some, Bytes,
  bytes_eq, codes, cut_prefix, raw_lines, drop_cr, Result, ok, err, ◌>>=◌, map_err, NumError,
  parse_uint, max_uint64, if◌then◌else◌,
}
use memaudit.Damon.Session.{AddrRange}

pub data IomemError : Type 0 where
  masked : IomemError
  bad_start bad_end : NumError → IomemError

abbrev pub with_byte : ℕ → Option (Bytes × Bytes) → Option (Bytes × Bytes)
with_byte c none = none
with_byte c (some (before, behind)) = some (c ∷ before, behind)

abbrev pub or_later : Option Bytes → Option (Bytes × Bytes) → Option (Bytes × Bytes)
or_later (some behind) later = some ([], behind)
or_later none later = later

-- strings.Cut: the texts before and behind the first `sep`.
unfoldable pub cut : Bytes → Bytes → Option (Bytes × Bytes)
cut [] sep = or_later (cut_prefix [] sep) none
cut (c ∷ s) sep = or_later (cut_prefix (c ∷ s) sep) (with_byte c (cut s sep))

-- An empty line, or the subdivision of an enclosing range.
abbrev pub is_indented : Bytes → Bool
is_indented [] = true
is_indented (c ∷ line) = (c == 32) || (c == 9)

-- The address part of a line that is labelled as system memory.
abbrev pub labelled : Option (Bytes × Bytes) → Option Bytes
labelled none = none
labelled (some (addrs, label)) = if bytes_eq label (codes "System RAM") then some addrs else none

abbrev pub range_of : ℕ → ℕ → Result IomemError (Option AddrRange)
range_of start end =
    if (start == 0) && (end == 0)
    then err masked
    else ok (some (record { start = start; end = end }))

unfoldable pub parse_addrs : Option (Bytes × Bytes) → Result IomemError (Option AddrRange)
parse_addrs none = ok none
parse_addrs (some (start_hex, end_hex)) =
    map_err bad_start (parse_uint 16 max_uint64 start_hex) >>= λ start.
    (map_err bad_end (parse_uint 16 max_uint64 end_hex) >>= λ end. range_of start end)

abbrev pub parse_labelled : Option Bytes → Result IomemError (Option AddrRange)
parse_labelled none = ok none
parse_labelled (some addrs) = parse_addrs (cut addrs (codes "-"))

-- One round of the loop: a range, or none for a line that is passed over.
unfoldable pub parse_line : Bytes → Result IomemError (Option AddrRange)
parse_line line =
    if is_indented line then ok none else parse_labelled (labelled (cut line (codes " : ")))

abbrev pub add_range : Option AddrRange → List AddrRange → List AddrRange
add_range none ranges = ranges
add_range (some r) ranges = r ∷ ranges

unfoldable pub parse_lines : List Bytes → Result IomemError (List AddrRange)
parse_lines [] = ok []
parse_lines (line ∷ lines) =
    parse_line line >>= λ r. (parse_lines lines >>= λ ranges. ok (add_range r ranges))

unfoldable pub parse_iomem : Bytes → Result IomemError (List AddrRange)
parse_iomem text = parse_lines (map drop_cr (raw_lines text))
