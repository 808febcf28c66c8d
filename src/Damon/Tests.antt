-- ===== src/Damon/Tests.antt =====
-- Tests of pkg/damon, and the theorems at concrete inputs.
use mathlib.Core.List.{Perm}
use memaudit.Base.{
  ℕ, ◌+◌, ◌≤◌, ◌<◌, ◌≡◌, ◌↔◌, ◌⊎◌, refl, Bool, true, false, List, [], ◌∷◌, ◌++◌, map, Option, some,
  Bytes, bytes_eq, codes, ok, err, ℤ, atoi, itoa, parse_uint, format_uint, leb_ℤ, IsSorted, arith,
  if◌then◌else◌, not, max_uint64,
}
use memaudit.Damon.Region.{Region, TriedRegions, region_indices, snapshot}
use memaudit.Damon.Region.Sorted.{ReadsAs, snapshot-IsSorted}
use memaudit.Damon.Detect.{kernel_at_least, split_n}
use memaudit.Damon.Detect.Version.{kernel_at_least_iff}
use memaudit.Damon.Iomem.{cut, parse_addrs, parse_line, parse_lines, parse_iomem, masked}
use memaudit.Damon.Iomem.Ranges.{AreRam, parse_lines-AreRam}
use memaudit.Damon.Session.{
  Config, SysfsWrite, kdamond_path, off_write, on_write, region_writes, config_writes, write_all,
  AddrRange, start,
}
use memaudit.Damon.Session.Order.{
  AllAccepted, start_ok, start_err, region_writes-read, read_numbers, half_open,
}

-- Two regions, listed as 10, nr, 2, each with the same files.
abbrev two_regions : TriedRegions
two_regions = record {
  trigger = true;
  entries = some (
      record { name = codes "10"; is_dir = true }
      ∷ record { name = codes "nr"; is_dir = true }
      ∷ record { name = codes "2"; is_dir = true }
      ∷ []);
  file = λ dir name. some (
      if bytes_eq name (codes "end")
      then codes "8192\n"
      else if bytes_eq dir (codes "2")
      then codes "7\n"
      else codes "9\n");
}

abbrev region_of : ℕ → Region
region_of n = record { start = n; end = 8192; nr_accesses = n; age = n }

snapshot_orders : snapshot two_regions ≡ ok (region_of 7 ∷ region_of 9 ∷ [])
unfolding snapshot atoi itoa parse_uint format_uint memaudit.Base.sort
snapshot_orders = refl

snapshot-IsSorted_example :
    (indices : List ℤ) × IsSorted leb_ℤ indices
    × Perm indices (
        region_indices (
          record { name = codes "10"; is_dir = true }
          ∷ record { name = codes "nr"; is_dir = true }
          ∷ record { name = codes "2"; is_dir = true }
          ∷ []))
    × ReadsAs two_regions.file indices (region_of 7 ∷ region_of 9 ∷ [])
snapshot-IsSorted_example =
    snapshot-IsSorted two_regions _ (region_of 7 ∷ region_of 9 ∷ []) refl snapshot_orders

kernel_at_least_refuses : kernel_at_least (codes "5.19.0-generic") (ℤ.pos 6) (ℤ.pos 2) ≡ false
unfolding kernel_at_least split_n atoi parse_uint
kernel_at_least_refuses = refl

kernel_at_least_iff_example :
    (kernel_at_least
        (format_uint 6 ++ 46 ∷ (format_uint 10 ++ 46 ∷ codes "0-rc1"))
        (ℤ.pos 6)
        (ℤ.pos 2)
      ≡ true)
    ↔ ((6 < 6) ⊎ (◌≡◌ {A = ℕ} 6 6 × (2 ≤ 10)))
kernel_at_least_iff_example =
    kernel_at_least_iff 6 10 6 2 (codes "0-rc1") (omega arith) (omega arith)

abbrev one_range : Config
one_range = record {
  ops = codes "paddr";
  sample_us = 5000;
  aggr_us = 100000;
  update_us = 60000000;
  min_regions = 10;
  max_regions = 1000;
  regions = record { start = 4096; end = 8191 } ∷ [];
}

abbrev accepts_all : List SysfsWrite → SysfsWrite → Bool
accepts_all log w = true

-- A kernel that refuses to turn the kdamond on.
abbrev refuses_on : List SysfsWrite → SysfsWrite → Bool
refuses_on log w = not (bytes_eq w.value (codes "on"))

start_succeeds : (start accepts_all one_range []).1 ≡ ok (record { kdamond = kdamond_path })
unfolding start write_all config_writes off_write on_write
start_succeeds = refl

start_fails : (start refuses_on one_range []).1 ≡ err on_write
unfolding start write_all config_writes off_write on_write format_uint
start_fails = refl

start_ok_example :
    (start accepts_all one_range []).0 ≡ off_write ∷ (config_writes one_range ++ on_write ∷ [])
start_ok_example = start_ok accepts_all one_range [] start_succeeds

start_err_example :
    (done : List SysfsWrite) × (left : List SysfsWrite) × (config_writes one_range ++ on_write ∷ []
      ≡ done ++ on_write ∷ left)
    × ((start refuses_on one_range []).0 ≡ (off_write ∷ []) ++ (done ++ on_write ∷ []))
    × AllAccepted refuses_on (off_write ∷ []) done
    × (refuses_on ((off_write ∷ []) ++ done) on_write ≡ false)
start_err_example = start_err refuses_on one_range [] on_write start_fails

abbrev two_ranges : List AddrRange
two_ranges = record { start = 4096; end = 8191 } ∷ record { start = 65536; end = 131071 } ∷ []

region_writes-read_example : read_numbers (region_writes 0 two_ranges) ≡ half_open 0 two_ranges
region_writes-read_example =
    region_writes-read 0 two_ranges ((omega arith, omega arith), ((omega arith, omega arith), tt))

-- A range, a subdivision of it, and another label.
abbrev iomem_lines : List Bytes
iomem_lines =
    codes "1000-1fff : System RAM"
    ∷ codes "  1000-17ff : Kernel code"
    ∷ codes "f000-ffff : PCI Bus"
    ∷ []

parse_lines_reads : parse_lines iomem_lines ≡ ok (record { start = 4096; end = 8191 } ∷ [])
unfolding parse_lines parse_line parse_addrs cut parse_uint
parse_lines_reads = refl

parse_lines-AreRam_example : AreRam iomem_lines (record { start = 4096; end = 8191 } ∷ [])
parse_lines-AreRam_example =
    parse_lines-AreRam iomem_lines (record { start = 4096; end = 8191 } ∷ []) parse_lines_reads

parse_iomem_masked : parse_iomem (codes "00000000-00000000 : System RAM\n") ≡ err masked
unfolding parse_iomem parse_lines parse_line parse_addrs cut parse_uint
parse_iomem_masked = refl
