-- ===== src/Collector/Numa.antt =====
-- internal/collector/numa.go: one record for each NUMA node, from its meminfo and its numastat.
pub mod Nodes
use memaudit.Base.{
  mul64, ℕ, Bool, true, false, List, [], ◌∷◌, any, Bytes, bytes_eq, codes, Result, ok, err, ◌>>=◌,
  ℤ, leb_ℤ, sort,
}
use memaudit.Model.{NumaMem}
use memaudit.Collector.Stat.{Stats, no_stats, plain_kv, FileRead, StatError, read_failed}
use memaudit.Collector.Scan.{Setters, node_meminfo_kv, scan_file}
use memaudit.Collector.Hugepages.{Listing, listed, not_there, unlistable, HugepageNode, numbered}

-- Kilobytes are stored as bytes.
abbrev pub numa_meminfo_setters : Setters
numa_meminfo_setters = record {
  has = λ key.
      any (λ (k : Bytes). bytes_eq key k)
        (codes "MemTotal" ∷ codes "MemFree" ∷ codes "FilePages" ∷ codes "AnonPages" ∷ []);
  store = λ n. mul64 n 1024;
}

abbrev pub numa_stat_setters : Setters
numa_stat_setters = record {
  has = λ key.
      any (λ (k : Bytes). bytes_eq key k)
        (codes "numa_hit" ∷ codes "numa_miss" ∷ codes "numa_foreign" ∷ []);
  store = λ n. n;
}

-- The listing of the nodes, and two files for the name of a directory.
pub record NumaHost : Type 0 where
  pub nodes : Listing
  pub meminfo : Bytes → FileRead
  pub numastat : Bytes → FileRead

module _ (host : NumaHost) where
  unfoldable pub collect_node : HugepageNode → Result StatError NumaMem
  collect_node node = do
    from_meminfo ← scan_file node_meminfo_kv numa_meminfo_setters (host.meminfo node.name) no_stats
    counters ← scan_file plain_kv numa_stat_setters (host.numastat node.name) from_meminfo
    ok (record { node = node.num; counters = counters })

  -- The loop over the entries that are directories of nodes.
  unfoldable pub collect_nodes : List HugepageNode → Result StatError (List NumaMem)
  collect_nodes [] = ok []
  collect_nodes (node ∷ nodes) = do
    rec ← collect_node node
    recs ← collect_nodes nodes
    ok (rec ∷ recs)

  abbrev pub by_node : NumaMem → NumaMem → Bool
  by_node a b = leb_ℤ a.node b.node

  -- `Collect`: a host without the directory has no records.
  unfoldable pub collect_numa : Result StatError (List NumaMem)
  collect_numa = elim host.nodes [
    | not_there ↦ ok []
    | unlistable ↦ err read_failed
    | listed entries ↦ collect_nodes (numbered entries) >>= λ nodes. ok (sort by_node nodes)
  ]
