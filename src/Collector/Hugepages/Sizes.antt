-- ===== src/Collector/Hugepages/Sizes.antt =====
-- Which records `Collect` returns.
use mathlib.Core.List.{Perm}
use memaudit.Base.{
  ℕ, ◌≤◌, ◌≡◌, inl, inr, refl, true, false, List, [], ◌∷◌, ◌++◌, some, codes, cut_suffix-append,
  format_uint, parse_uint-format_uint, max_uint64, ok, Result-cases, leb_ℤ-total, leb_ℤ-trans, leb,
  sort, sort-perm, sort-IsSorted, IsSorted, arith, Bool-cases,
}
use memaudit.Model.{Hugepages, hugepages_no_numa}
use memaudit.Damon.Region.{DirEntry}
use memaudit.Collector.Hugepages.{
  listed, hugepages_dir_name, parse_hugepages_dir_name, hugepage_sizes, HugepageNode,
  list_hugepage_nodes, read_hugepages_dir, HugepagesHost, read_nodes, or_host, read_sizes,
  by_size_and_node, collect_hugepages,
}

-- The name of the directory of a page size gives the size back.
pub parse-hugepages_dir_name :
    (n : ℕ) → n ≤ max_uint64 → parse_hugepages_dir_name (hugepages_dir_name n) ≡ some n
unfolding parse_hugepages_dir_name hugepages_dir_name
parse-hugepages_dir_name n h =
    rw (cut_suffix-append (format_uint n) (codes "kB"), parse_uint-format_uint max_uint64 n h) refl

module _ (host : HugepagesHost) where
  -- The records of one size by node: those of the nodes that have its directory, in order.
  pub data ByNode (size_kb : ℕ) : List HugepageNode → List Hugepages → Type 0 where
    no_node : ByNode size_kb [] []
    without :
        {node : HugepageNode} {nodes : List HugepageNode} {recs : List Hugepages}
        → host.node_dir node.name (hugepages_dir_name size_kb) ≡ false
        → ByNode size_kb nodes recs
        → ByNode size_kb (node ∷ nodes) recs
    with_dir :
        {node : HugepageNode} {nodes : List HugepageNode} {rec : Hugepages} {recs : List Hugepages}
        → host.node_dir node.name (hugepages_dir_name size_kb) ≡ true
        → read_hugepages_dir
            (host.node_file node.name (hugepages_dir_name size_kb))
            size_kb
            node.num
          ≡ ok rec
        → ByNode size_kb nodes recs
        → ByNode size_kb (node ∷ nodes) (rec ∷ recs)

  -- The records of all sizes: by node where a node has the directory, and one for the host otherwise.
  pub data BySize (nodes : List HugepageNode) : List ℕ → List Hugepages → Type 0 where
    no_size : BySize nodes [] []
    on_nodes :
        {size_kb : ℕ} {sizes : List ℕ} {rec : Hugepages} {recs later : List Hugepages}
        → ByNode size_kb nodes (rec ∷ recs)
        → BySize nodes sizes later
        → BySize nodes (size_kb ∷ sizes) (rec ∷ recs ++ later)
    on_host :
        {size_kb : ℕ} {sizes : List ℕ} {rec : Hugepages} {later : List Hugepages}
        → ByNode size_kb nodes []
        → read_hugepages_dir
            (host.global_file (hugepages_dir_name size_kb))
            size_kb
            hugepages_no_numa
          ≡ ok rec
        → BySize nodes sizes later
        → BySize nodes (size_kb ∷ sizes) (rec ∷ later)

  read_nodes-ByNode :
      (size_kb : ℕ) (nodes : List HugepageNode) (recs : List Hugepages)
      → read_nodes host size_kb nodes ≡ ok recs
      → ByNode size_kb nodes recs
  unfolding read_nodes
  read_nodes-ByNode size_kb [] recs h = let e : recs ≡ [] = ground arith in rw e no_node
  read_nodes-ByNode size_kb (node ∷ nodes) recs h =
      elim (Bool-cases (host.node_dir node.name (hugepages_dir_name size_kb))) [
        | inr e ↦ without e (read_nodes-ByNode size_kb nodes recs (rw e at h))
        | inl e ↦
            elim (Result-cases (
              read_hugepages_dir (host.node_file node.name (hugepages_dir_name size_kb)) size_kb
                node.num)) [
                  | inr (x, f) ↦ absurd (ground (arith, e, f, h))
                  | inl (rec, f) ↦ elim (Result-cases (read_nodes host size_kb nodes)) [
                    | inr (x, g) ↦ absurd (ground (arith, e, f, g, h))
                    | inl (later, g) ↦
                        let same : recs ≡ rec ∷ later = ground (arith, e, f, g, h) in
                        rw same (with_dir e f (read_nodes-ByNode size_kb nodes later g))
                  ]
                ]
      ]

  or_host-BySize :
      (nodes : List HugepageNode) (size_kb : ℕ) (sizes : List ℕ) (recs out later : List Hugepages)
      → ByNode size_kb nodes recs
      → or_host host size_kb recs ≡ ok out
      → BySize nodes sizes later
      → BySize nodes (size_kb ∷ sizes) (out ++ later)
  or_host-BySize nodes size_kb sizes (rec ∷ recs) out later by h rest =
      let same : out ≡ rec ∷ recs = ground (arith, h) in rw same (on_nodes by rest)
  or_host-BySize nodes size_kb sizes [] out later by h rest =
      elim (Result-cases (
        read_hugepages_dir (host.global_file (hugepages_dir_name size_kb)) size_kb
          hugepages_no_numa)) [
            | inr (x, f) ↦ absurd (ground (arith, f, h))
            | inl (rec, f) ↦
                let same : out ≡ rec ∷ [] = ground (arith, f, h) in rw same (on_host by f rest)
          ]

  read_sizes-BySize :
      (nodes : List HugepageNode) (sizes : List ℕ) (out : List Hugepages)
      → read_sizes host nodes sizes ≡ ok out
      → BySize nodes sizes out
  unfolding read_sizes
  read_sizes-BySize nodes [] out h = let e : out ≡ [] = ground arith in rw e no_size
  read_sizes-BySize nodes (size_kb ∷ sizes) out h =
      elim (Result-cases (read_nodes host size_kb nodes)) [
        | inr (x, e) ↦ absurd (ground (arith, e, h))
        | inl (recs, e) ↦ elim (Result-cases (or_host host size_kb recs)) [
          | inr (x, f) ↦ absurd (ground (arith, e, f, h))
          | inl (recorded, f) ↦ elim (Result-cases (read_sizes host nodes sizes)) [
            | inr (x, g) ↦ absurd (ground (arith, e, f, g, h))
            | inl (later, g) ↦
                let same : out ≡ recorded ++ later = ground (arith, e, f, g, h) in
                rw same (
                  or_host-BySize nodes size_kb sizes recs recorded later
                    (read_nodes-ByNode size_kb nodes recs e) f
                    (read_sizes-BySize nodes sizes later g))
          ]
        ]
      ]

  by_size_and_node_total :
      (a b : Hugepages) → by_size_and_node host a b ≡ false → by_size_and_node host b a ≡ true
  by_size_and_node_total a b h = ground (arith, leb_ℤ-total a.node b.node)

  by_size_and_node_trans :
      (a b c : Hugepages)
      → by_size_and_node host a b ≡ true
      → by_size_and_node host b c ≡ true
      → by_size_and_node host a c ≡ true
  by_size_and_node_trans a b c h k = ground (arith, leb_ℤ-trans a.node b.node c.node)

  -- Where the sizes and the nodes can be listed and `Collect` succeeds, its records are sorted by size
  -- and node, and are these: for each listed size one for each node that has its directory, and where
  -- none has it, one for the host.
  pub collect_hugepages-BySize :
      (entries : List DirEntry) (nodes : List HugepageNode) (out : List Hugepages)
      → host.sizes ≡ listed entries
      → list_hugepage_nodes host.nodes ≡ ok nodes
      → collect_hugepages host ≡ ok out
      → IsSorted (by_size_and_node host) out
        × ((sizes : List ℕ) × (recs : List Hugepages) × Perm sizes (hugepage_sizes entries)
            × BySize nodes sizes recs
            × Perm out recs)
  unfolding collect_hugepages
  collect_hugepages-BySize entries nodes out s n h =
      elim (Result-cases (read_sizes host nodes (sort leb (hugepage_sizes entries)))) [
        | inr (x, f) ↦ absurd (ground (arith, s, n, f, h))
        | inl (recs, f) ↦
            let same : out ≡ sort (by_size_and_node host) recs = ground (arith, s, n, f, h) in
            rw same (
              sort-IsSorted (by_size_and_node host) by_size_and_node_total by_size_and_node_trans
                  recs,
              (
                sort leb (hugepage_sizes entries),
                recs,
                sort-perm leb (hugepage_sizes entries),
                read_sizes-BySize nodes (sort leb (hugepage_sizes entries)) recs f,
                sort-perm (by_size_and_node host) recs,
              ),
            )
      ]
