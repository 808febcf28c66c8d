-- ===== src/Collector/SysTests.antt =====
-- Tests of the collectors that read directories of /sys, and their theorems at concrete inputs.
use mathlib.Core.List.{Perm}
use memaudit.Base.{
  ℕ, ◌≡◌, ◌≢◌, ◌⊎◌, inl, inr, refl, Bool, true, false, List, [], ◌∷◌, Option, none, some, Bytes,
  bytes_eq, codes, Result, ok, err, arith, ℤ, pos, IsSorted, parse_uint, format_uint, atoi,
  if◌then◌else◌, NumError, syntax, ◌&&◌,
}
use memaudit.Model.{Hugepages, NumaMem}
use memaudit.Damon.Region.{DirEntry}
use memaudit.K8s.Paths.{pod_slice, container_scope, run_of}
use memaudit.K8s.Paths.Lookup.{path_of, container_path, crio}
use memaudit.K8s.Kubelet.{FetchError, unreachable}
use memaudit.Collector.Stat.{FileRead, content, absent}
use memaudit.Collector.Hugepages.{
  Listing, listed, HugepagesHost, HugepageNode, hugepage_sizes, numbered, list_hugepage_nodes,
  by_size_and_node, collect_hugepages,
}
use memaudit.Collector.Hugepages.Sizes.{BySize, collect_hugepages-BySize}
use memaudit.Collector.Numa.{NumaHost, by_node, collect_numa}
use memaudit.Collector.Numa.Nodes.{AreOf, collect_numa-AreOf}
use memaudit.Collector.Cgroup.Read.{Client, read_cgroup}
use memaudit.Collector.Cgroup.Read.Pod.{Enriches, read_cgroup-Enriches}

abbrev folder : Bytes → DirEntry
folder name = record { name = name; is_dir = true }

abbrev sizes_listed : List DirEntry
sizes_listed = folder (codes "hugepages-2048kB") ∷ folder (codes "hugepages-16kB") ∷ []

abbrev nodes_listed : List DirEntry
nodes_listed = folder (codes "node1") ∷ folder (codes "power") ∷ folder (codes "node0") ∷ []

-- The pages of 2 MB are listed by node, those of 16 kB for the host.
abbrev two_sizes : HugepagesHost
two_sizes = record {
  sizes = listed sizes_listed;
  nodes = listed nodes_listed;
  global_file = λ dir file. content (codes "5\n");
  node_dir = λ node dir. bytes_eq dir (codes "hugepages-2048kB");
  node_file = λ node dir file.
      if bytes_eq file (codes "nr_hugepages") then content (codes "3\n") else absent;
}

abbrev two_nodes : List HugepageNode
two_nodes =
    record { name = codes "node0"; num = pos 0 } ∷ record { name = codes "node1"; num = pos 1 } ∷ []

nodes_sorted : list_hugepage_nodes two_sizes.nodes ≡ ok two_nodes
unfolding list_hugepage_nodes numbered memaudit.Collector.Hugepages.node_number atoi parse_uint
    memaudit.Base.sort
nodes_sorted = refl

abbrev on_node : ℤ → Hugepages
on_node n = record { size_kb = 2048; node = n; total = 3; free = 0; rsvd = 0; surp = 0 }

abbrev three_records : List Hugepages
three_records =
    record { size_kb = 16; node = ℤ.negsuc 0; total = 5; free = 5; rsvd = 5; surp = 5 }
    ∷ on_node (pos 0)
    ∷ on_node (pos 1)
    ∷ []

hugepages_collected : collect_hugepages two_sizes ≡ ok three_records
unfolding collect_hugepages list_hugepage_nodes hugepage_sizes numbered
    memaudit.Collector.Hugepages.parse_hugepages_dir_name
    memaudit.Collector.Hugepages.hugepages_dir_name memaudit.Collector.Hugepages.node_number
    memaudit.Collector.Hugepages.read_sizes memaudit.Collector.Hugepages.read_nodes
    memaudit.Collector.Hugepages.read_hugepages_dir memaudit.Collector.Stat.read_uint_file atoi
    parse_uint format_uint memaudit.Base.sort
hugepages_collected = refl

collect_hugepages-BySize_example :
    IsSorted (by_size_and_node two_sizes) three_records
    × ((sizes : List ℕ) × (recs : List Hugepages) × Perm sizes (hugepage_sizes sizes_listed)
        × BySize two_sizes two_nodes sizes recs
        × Perm three_records recs)
collect_hugepages-BySize_example =
    collect_hugepages-BySize two_sizes sizes_listed two_nodes three_records refl nodes_sorted
      hugepages_collected

-- Two lines give MemFree, the later one counts.
abbrev numa_host : NumaHost
numa_host = record {
  nodes = listed (folder (codes "node0") ∷ []);
  meminfo =
      λ node. content (codes "Node 0 MemTotal: 8 kB\nNode 0 MemFree: 4 kB\nNode 0 MemFree: 2 kB\n");
  numastat = λ node. content (codes "numa_hit 7\nlocal_node 6\n");
}

abbrev numa_rec : NumaMem
numa_rec = record {
  node = pos 0;
  counters = memaudit.Collector.Stat.set_stat (codes "numa_hit") 7 (
      memaudit.Collector.Stat.set_stat (codes "MemFree") 2048 (
        memaudit.Collector.Stat.set_stat (codes "MemFree") 4096
          (memaudit.Collector.Stat.set_stat (codes "MemTotal") 8192 (λ key. 0))));
}

numa_collected : collect_numa numa_host ≡ ok (numa_rec ∷ [])
unfolding collect_numa numbered memaudit.Collector.Hugepages.node_number
    memaudit.Collector.Numa.collect_nodes memaudit.Collector.Numa.collect_node
    memaudit.Collector.Scan.scan_file memaudit.Collector.Scan.scan_pairs
    memaudit.Collector.Scan.apply_setter atoi parse_uint memaudit.Base.sort
numa_collected = refl

collect_numa-AreOf_example :
    IsSorted (by_node numa_host) (numa_rec ∷ [])
    × ((recs : List NumaMem) × AreOf numa_host (numbered (folder (codes "node0") ∷ [])) recs
        × Perm (numa_rec ∷ []) recs)
collect_numa-AreOf_example =
    collect_numa-AreOf numa_host (folder (codes "node0") ∷ []) (numa_rec ∷ []) refl numa_collected

-- Text stands for the floating-point numbers. One pod is known, and the others cannot be looked up.
abbrev knows_one : Client FetchError
knows_one uid =
    if bytes_eq uid (codes "12-ab")
    then ok (some (record { namespace = codes "ml"; name = codes "trainer"; labels = none }))
    else err unreachable

abbrev cgroup_files : Bytes → FileRead
cgroup_files file =
    if bytes_eq file (codes "memory.current") then content (codes "4096\n") else absent

root_names_none :
    (pod_slice (codes "kubepods.slice") ≡ none) × (container_scope (codes "kubepods.slice") ≡ none)
unfolding pod_slice container_scope run_of
root_names_none = (refl, refl)

read_cgroup-Enriches_example :
    Enriches
      (λ (b : Bytes). ok b)
      []
      knows_one
      (codes "12-ab")
      (codes "c0ffee")
      (read_cgroup
        (λ (b : Bytes). ok b)
        []
        {E = FetchError}
        none
        cgroup_files
        (path_of
          (container_path (codes "kubepods.slice" ∷ []) [] (codes "12-ab") crio (codes "c0ffee"))))
      (read_cgroup
        (λ (b : Bytes). ok b)
        []
        (some knows_one)
        cgroup_files
        (path_of
          (container_path (codes "kubepods.slice" ∷ []) [] (codes "12-ab") crio (codes "c0ffee"))))
read_cgroup-Enriches_example =
    read_cgroup-Enriches (λ (b : Bytes). ok b) [] knows_one (codes "12-ab") (codes "c0ffee")
      cgroup_files (codes "kubepods.slice" ∷ []) [] crio (ground arith) (root_names_none.0, tt)
      (root_names_none.1, tt) (inl refl) (λ e. absurd (ground arith)) (ground arith)
      (λ e. absurd (ground arith)) (ground arith)
