-- ===== src/Collector/Numa/Nodes.antt =====
-- Which records `Collect` returns.
use mathlib.Core.List.{Perm}
use memaudit.Base.{
  ℕ, ◌≡◌, inl, inr, refl, sym, subst, true, false, List, [], ◌∷◌, Bytes, ok, Result-cases,
  Bool-cases, leb_ℤ-total, leb_ℤ-trans, sort, sort-perm, sort-IsSorted, IsSorted, arith,
}
use memaudit.Model.{NumaMem}
use memaudit.Damon.Region.{DirEntry}
use memaudit.Collector.Stat.{no_stats, plain_kv, scan_lines, content}
use memaudit.Collector.Scan.{node_meminfo_kv, scan_file}
use memaudit.Collector.Scan.Last.{last_of, Stores, scan_file-HasScanned}
use memaudit.Collector.Hugepages.{listed, HugepageNode, numbered}
use memaudit.Collector.Numa.{
  numa_meminfo_setters, numa_stat_setters, NumaHost, collect_node, collect_nodes, by_node,
  collect_numa,
}

module _ (host : NumaHost) where
  -- A record of a node: from meminfo the kilobytes of the last line of each key, in bytes, and from
  -- numastat the number of the last line of each key.
  pub record IsOf (node : HugepageNode) (rec : NumaMem) : Type 0 where
    pub number : rec.node ≡ node.num
    pub meminfo : Bytes
    pub numastat : Bytes
    pub meminfo_read : host.meminfo node.name ≡ content meminfo
    pub numastat_read : host.numastat node.name ≡ content numastat
    pub sizes :
        (key : Bytes)
        → numa_meminfo_setters.has key ≡ true
        → Stores node_meminfo_kv numa_meminfo_setters 0
            (last_of node_meminfo_kv key (scan_lines meminfo))
            (rec.counters key)
    pub counts :
        (key : Bytes)
        → numa_stat_setters.has key ≡ true
        → Stores plain_kv numa_stat_setters 0
            (last_of plain_kv key (scan_lines numastat))
            (rec.counters key)

  pub data AreOf : List HugepageNode → List NumaMem → Type 0 where
    no_node : AreOf [] []
    one_node :
        {node : HugepageNode} {nodes : List HugepageNode} {rec : NumaMem} {recs : List NumaMem}
        → IsOf node rec
        → AreOf nodes recs
        → AreOf (node ∷ nodes) (rec ∷ recs)

  sizes_are_no_counts :
      (key : Bytes) → numa_meminfo_setters.has key ≡ true → numa_stat_setters.has key ≡ false
  sizes_are_no_counts [] h = refl
  sizes_are_no_counts (c ∷ key) h = ground arith

  counts_are_no_sizes :
      (key : Bytes) → numa_stat_setters.has key ≡ true → numa_meminfo_setters.has key ≡ false
  counts_are_no_sizes key h = elim (Bool-cases (numa_meminfo_setters.has key)) [
    | inr e ↦ e
    | inl e ↦ absurd (ground (arith, h, sizes_are_no_counts key e))
  ]

  collect_node-IsOf :
      (node : HugepageNode) (rec : NumaMem) → collect_node host node ≡ ok rec → IsOf node rec
  unfolding collect_node
  collect_node-IsOf node rec h =
      elim (Result-cases
        (scan_file node_meminfo_kv numa_meminfo_setters (host.meminfo node.name) no_stats)) [
          | inr (x, e) ↦ absurd (ground (arith, e, h))
          | inl (sized, e) ↦
              elim (Result-cases
                (scan_file plain_kv numa_stat_setters (host.numastat node.name) sized)) [
                  | inr (x, f) ↦ absurd (ground (arith, e, f, h))
                  | inl (counters, f) ↦
                      let same : rec ≡ (record { node = node.num; counters = counters }) =
                        ground (arith, e, f, h) in
                      let first =
                        scan_file-HasScanned node_meminfo_kv numa_meminfo_setters
                          (host.meminfo node.name) no_stats sized e in
                      let second =
                        scan_file-HasScanned plain_kv numa_stat_setters (host.numastat node.name)
                          sized counters f in
                      rw same (record {
                        number = refl;
                        meminfo = first.text;
                        numastat = second.text;
                        meminfo_read = first.was_there;
                        numastat_read = second.was_there;
                        sizes = λ key has.
                            subst
                              (λ (n : ℕ).
                                Stores node_meminfo_kv numa_meminfo_setters 0
                                  (last_of node_meminfo_kv key (scan_lines first.text)) n)
                              (sym (second.kept key (sizes_are_no_counts key has)))
                              (first.stored key has);
                        counts = λ key has.
                            subst
                              (λ (n : ℕ).
                                Stores plain_kv numa_stat_setters n
                                  (last_of plain_kv key (scan_lines second.text)) (counters key))
                              (first.kept key (counts_are_no_sizes key has))
                              (second.stored key has);
                      })
                ]
        ]

  collect_nodes-AreOf :
      (nodes : List HugepageNode) (recs : List NumaMem)
      → collect_nodes host nodes ≡ ok recs
      → AreOf nodes recs
  unfolding collect_nodes
  collect_nodes-AreOf [] recs h = let e : recs ≡ [] = ground arith in rw e no_node
  collect_nodes-AreOf (node ∷ nodes) recs h = elim (Result-cases (collect_node host node)) [
    | inr (x, e) ↦ absurd (ground (arith, e, h))
    | inl (rec, e) ↦ elim (Result-cases (collect_nodes host nodes)) [
      | inr (x, f) ↦ absurd (ground (arith, e, f, h))
      | inl (later, f) ↦
          let same : recs ≡ rec ∷ later = ground (arith, e, f, h) in
          rw same (one_node (collect_node-IsOf node rec e) (collect_nodes-AreOf nodes later f))
    ]
  ]

  -- Where the nodes can be listed and `Collect` succeeds, its records are sorted by node and are those of
  -- the listed nodes, one each: every size is the last of its key in the node's meminfo, in bytes, every
  -- count the last of its key in its numastat, and 0 where a key has no line.
  pub collect_numa-AreOf :
      (entries : List DirEntry) (out : List NumaMem)
      → host.nodes ≡ listed entries
      → collect_numa host ≡ ok out
      → IsSorted (by_node host) out
        × ((recs : List NumaMem) × AreOf (numbered entries) recs × Perm out recs)
  unfolding collect_numa
  collect_numa-AreOf entries out l h = elim (Result-cases (collect_nodes host (numbered entries))) [
    | inr (x, e) ↦ absurd (ground (arith, l, e, h))
    | inl (recs, e) ↦
        let same : out ≡ sort (by_node host) recs = ground (arith, l, e, h) in
        rw same (
          sort-IsSorted (by_node host) (λ a b. leb_ℤ-total a.node b.node)
              (λ a b c. leb_ℤ-trans a.node b.node c.node) recs,
          (recs, collect_nodes-AreOf (numbered entries) recs e, sort-perm (by_node host) recs),
        )
  ]
