-- ===== src/Collector/Hugepages.antt =====
-- internal/collector/hugepages.go: one record for each page size and NUMA node. The setters of a record
-- run in the order of its fields; the code leaves their order open, and with it which of several errors
-- is returned. Entries with one number stay in the order of the listing.
pub mod Sizes
use memaudit.Base.{
  ℕ, Bool, true, false, ◌&&◌, List, [], ◌∷◌, ◌++◌, Option, none, some, Bytes, codes, cut_prefix,
  cut_suffix, Result, ok, err, ◌>>=◌, parse_uint, format_uint, max_uint64, ℤ, atoi, leb_ℤ, eqb_ℤ,
  ltb, leb, ◌==◌, sort, if◌then◌else◌,
}
use memaudit.Model.{Hugepages, hugepages_no_numa}
use memaudit.Damon.Region.{DirEntry}
use memaudit.Collector.Stat.{FileRead, StatError, read_failed, read_uint_file}

-- `os.ReadDir`: the entries, no such directory, or another error.
pub data Listing : Type 0 where
  listed : List DirEntry → Listing
  not_there unlistable : Listing

abbrev pub as_ok {ℓ κ} : {E : Type ℓ} {A : Type κ} → Result E A → Option A
as_ok (ok a) = some a
as_ok (err e) = none

unfoldable pub hugepages_dir_name : ℕ → Bytes
hugepages_dir_name size_kb = codes "hugepages-" ++ (format_uint size_kb ++ codes "kB")

abbrev pub size_text : Option Bytes → Option Bytes
size_text none = none
size_text (some rest) = cut_suffix rest (codes "kB")

abbrev pub parse_size : Option Bytes → Option ℕ
parse_size none = none
parse_size (some digits) = as_ok (parse_uint 10 max_uint64 digits)

unfoldable pub parse_hugepages_dir_name : Bytes → Option ℕ
parse_hugepages_dir_name name = parse_size (size_text (cut_prefix name (codes "hugepages-")))

abbrev pub add_size : Bool → Option ℕ → List ℕ → List ℕ
add_size is_dir none sizes = sizes
add_size is_dir (some n) sizes = if is_dir then n ∷ sizes else sizes

unfoldable pub hugepage_sizes : List DirEntry → List ℕ
hugepage_sizes [] = []
hugepage_sizes (e ∷ entries) =
    add_size e.is_dir (parse_hugepages_dir_name e.name) (hugepage_sizes entries)

pub record HugepageNode : Type 0 where
  pub name : Bytes
  pub num : ℤ

-- The number of a directory `nodeN`.
abbrev pub number_behind : Option Bytes → Option ℤ
number_behind none = none
number_behind (some digits) = atoi digits

unfoldable pub node_number : DirEntry → Option ℤ
node_number e = if e.is_dir then number_behind (cut_prefix e.name (codes "node")) else none

abbrev pub add_node : Bytes → Option ℤ → List HugepageNode → List HugepageNode
add_node name none nodes = nodes
add_node name (some n) nodes = record { name = name; num = n } ∷ nodes

unfoldable pub numbered : List DirEntry → List HugepageNode
numbered [] = []
numbered (e ∷ entries) = add_node e.name (node_number e) (numbered entries)

abbrev pub by_num : HugepageNode → HugepageNode → Bool
by_num a b = leb_ℤ a.num b.num

-- `listHugepageNodes`: a host without the directory has no nodes.
unfoldable pub list_hugepage_nodes : Listing → Result StatError (List HugepageNode)
list_hugepage_nodes (listed entries) = ok (sort by_num (numbered entries))
list_hugepage_nodes not_there = ok []
list_hugepage_nodes unlistable = err read_failed

-- `readHugepagesDir`, on the files of a directory by their names.
unfoldable pub read_hugepages_dir : (Bytes → FileRead) → ℕ → ℤ → Result StatError Hugepages
read_hugepages_dir file size_kb node = do
  total ← read_uint_file (file (codes "nr_hugepages"))
  free ← read_uint_file (file (codes "free_hugepages"))
  rsvd ← read_uint_file (file (codes "resv_hugepages"))
  surp ← read_uint_file (file (codes "surplus_hugepages"))
  ok (record {
    size_kb = size_kb;
    node = node;
    total = total;
    free = free;
    rsvd = rsvd;
    surp = surp;
  })

-- The host: the two listings, and the files of the directories below them. `node_dir` says for a node
-- and a directory whether `os.Stat` finds it, or fails in another way.
pub record HugepagesHost : Type 0 where
  pub sizes : Listing
  pub nodes : Listing
  pub global_file : Bytes → Bytes → FileRead
  pub node_dir : Bytes → Bytes → Bool
  pub node_file : Bytes → Bytes → Bytes → FileRead

module _ (host : HugepagesHost) where
  -- The inner loop: a record for each node that has the directory.
  unfoldable pub read_nodes : ℕ → List HugepageNode → Result StatError (List Hugepages)
  read_nodes size_kb [] = ok []
  read_nodes size_kb (node ∷ nodes) =
      let dir = hugepages_dir_name size_kb in
      let later = read_nodes size_kb nodes in
      let recorded = read_hugepages_dir (host.node_file node.name dir) size_kb node.num >>= λ rec.
      (later >>= λ recs. ok (rec ∷ recs)) in
      if host.node_dir node.name dir then recorded else later

  -- Where no node has the directory, the host's own is read.
  abbrev pub or_host : ℕ → List Hugepages → Result StatError (List Hugepages)
  or_host size_kb (rec ∷ recs) = ok (rec ∷ recs)
  or_host size_kb [] =
      read_hugepages_dir (host.global_file (hugepages_dir_name size_kb)) size_kb hugepages_no_numa
      >>= λ rec. ok (rec ∷ [])

  unfoldable pub read_sizes : List HugepageNode → List ℕ → Result StatError (List Hugepages)
  read_sizes nodes [] = ok []
  read_sizes nodes (size_kb ∷ sizes) = do
    recs ← read_nodes size_kb nodes
    out ← or_host size_kb recs
    later ← read_sizes nodes sizes
    ok (out ++ later)

  abbrev pub by_size_and_node : Hugepages → Hugepages → Bool
  by_size_and_node a b =
      if a.size_kb == b.size_kb then leb_ℤ a.node b.node else ltb a.size_kb b.size_kb

  -- `Collect`: without the directory of the sizes there are no records.
  unfoldable pub collect_hugepages : Result StatError (List Hugepages)
  collect_hugepages = elim host.sizes [
    | not_there ↦ ok []
    | unlistable ↦ err read_failed
    | listed entries ↦ list_hugepage_nodes host.nodes >>= λ nodes.
        (read_sizes nodes (sort leb (hugepage_sizes entries)) >>= λ out.
        ok (sort by_size_and_node out))
  ]
