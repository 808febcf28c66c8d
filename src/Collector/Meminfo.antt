-- ===== src/Collector/Meminfo.antt =====
-- internal/collector/meminfo.go: the record of /proc/meminfo. What `procfs` reads of the file is an
-- argument; a field that the kernel does not have is `none`.
use memaudit.Base.{
  ℕ, Bool, List, [], ◌∷◌, Option, none, some, Bytes, bytes_eq, codes, Result, ok, err, ◌>>=◌,
  NumError, parse_uint, max_uint64, mul64, if◌then◌else◌,
}
use memaudit.Model.{HostMem}
use memaudit.Collector.Stat.{
  scan_lines, FileRead, content, absent, unreadable, StatError, read_failed, as_stat,
}

-- The fields of `procfs.Meminfo` that are used.
pub record MeminfoFields : Type 0 where
  pub mem_total_bytes : Option ℕ
  pub mem_free_bytes : Option ℕ
  pub mem_available_bytes : Option ℕ
  pub buffers_bytes : Option ℕ
  pub cached_bytes : Option ℕ
  pub swap_cached_bytes : Option ℕ
  pub swap_total_bytes : Option ℕ
  pub swap_free_bytes : Option ℕ
  pub active_bytes : Option ℕ
  pub inactive_bytes : Option ℕ
  pub active_anon_bytes : Option ℕ
  pub inactive_anon_bytes : Option ℕ
  pub active_file_bytes : Option ℕ
  pub inactive_file_bytes : Option ℕ
  pub unevictable_bytes : Option ℕ
  pub dirty_bytes : Option ℕ
  pub writeback_bytes : Option ℕ
  pub anon_pages_bytes : Option ℕ
  pub mapped_bytes : Option ℕ
  pub shmem_bytes : Option ℕ
  pub slab_bytes : Option ℕ
  pub s_reclaimable_bytes : Option ℕ
  pub s_unreclaim_bytes : Option ℕ
  pub kernel_stack_bytes : Option ℕ
  pub page_tables_bytes : Option ℕ
  pub commit_limit_bytes : Option ℕ
  pub committed_as_bytes : Option ℕ
  pub direct_map_4k_bytes : Option ℕ
  pub direct_map_2m_bytes : Option ℕ
  pub direct_map_1g_bytes : Option ℕ

abbrev pub deref_u64 : Option ℕ → ℕ
deref_u64 none = 0
deref_u64 (some n) = n

abbrev pub kilobytes : Bytes → Result NumError ℕ
kilobytes val = parse_uint 10 max_uint64 val >>= λ kb. ok (mul64 kb 1024)

-- The first line with the key decides; without one the value is 0.
unfoldable pub parse_k_reclaimable_bytes : List (List Bytes) → Result NumError ℕ
parse_k_reclaimable_bytes [] = ok 0
parse_k_reclaimable_bytes ([] ∷ lines) = parse_k_reclaimable_bytes lines
parse_k_reclaimable_bytes ((key ∷ []) ∷ lines) = parse_k_reclaimable_bytes lines
parse_k_reclaimable_bytes ((key ∷ val ∷ rest) ∷ lines) =
    let later = parse_k_reclaimable_bytes lines in
    if bytes_eq key (codes "KReclaimable:") then kilobytes val else later

unfoldable pub read_k_reclaimable_bytes : FileRead → Result StatError ℕ
read_k_reclaimable_bytes (content b) = as_stat (parse_k_reclaimable_bytes (scan_lines b))
read_k_reclaimable_bytes absent = err read_failed
read_k_reclaimable_bytes unreadable = err read_failed

abbrev pub host_mem_of : MeminfoFields → ℕ → HostMem
host_mem_of mi kreclaimable = record {
  mem_total = deref_u64 mi.mem_total_bytes;
  mem_free = deref_u64 mi.mem_free_bytes;
  mem_available = deref_u64 mi.mem_available_bytes;
  buffers = deref_u64 mi.buffers_bytes;
  cached = deref_u64 mi.cached_bytes;
  swap_cached = deref_u64 mi.swap_cached_bytes;
  swap_total = deref_u64 mi.swap_total_bytes;
  swap_free = deref_u64 mi.swap_free_bytes;
  active = deref_u64 mi.active_bytes;
  inactive = deref_u64 mi.inactive_bytes;
  active_anon = deref_u64 mi.active_anon_bytes;
  inactive_anon = deref_u64 mi.inactive_anon_bytes;
  active_file = deref_u64 mi.active_file_bytes;
  inactive_file = deref_u64 mi.inactive_file_bytes;
  unevictable = deref_u64 mi.unevictable_bytes;
  dirty = deref_u64 mi.dirty_bytes;
  writeback = deref_u64 mi.writeback_bytes;
  anon_pages = deref_u64 mi.anon_pages_bytes;
  mapped = deref_u64 mi.mapped_bytes;
  shmem = deref_u64 mi.shmem_bytes;
  k_reclaimable = kreclaimable;
  slab = deref_u64 mi.slab_bytes;
  s_reclaimable = deref_u64 mi.s_reclaimable_bytes;
  s_unreclaim = deref_u64 mi.s_unreclaim_bytes;
  kernel_stack = deref_u64 mi.kernel_stack_bytes;
  page_tables = deref_u64 mi.page_tables_bytes;
  commit_limit = deref_u64 mi.commit_limit_bytes;
  committed_as = deref_u64 mi.committed_as_bytes;
  direct_map_4k = deref_u64 mi.direct_map_4k_bytes;
  direct_map_2m = deref_u64 mi.direct_map_2m_bytes;
  direct_map_1g = deref_u64 mi.direct_map_1g_bytes;
}

abbrev pub with_kreclaimable : Option MeminfoFields → Result StatError ℕ → Result StatError HostMem
with_kreclaimable none kreclaimable = err read_failed
with_kreclaimable (some mi) kreclaimable = kreclaimable >>= λ n. ok (host_mem_of mi n)

-- `Collect`: whether the root of /proc is there, what `procfs` reads, and the file itself.
unfoldable pub collect_meminfo : Bool → Option MeminfoFields → FileRead → Result StatError HostMem
collect_meminfo root_ok fields file =
    if root_ok then with_kreclaimable fields (read_k_reclaimable_bytes file) else err read_failed
