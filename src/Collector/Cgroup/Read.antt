-- ===== src/Collector/Cgroup/Read.antt =====
-- internal/collector/cgroup.go: `readCgroup` and what it calls. `F` stands for the floating-point
-- numbers and `parse_float` for `strconv.ParseFloat`; the client of the kubelet is the interface that
-- the code has, a function of the UID.
pub mod Pod
use memaudit.Base.{
  ℕ, zero, suc, Bool, true, false, List, [], ◌∷◌, map, Option, none, some, Bytes, bytes_eq, codes,
  fields, split_on, trim_space, Result, ok, err, ◌>>=◌, NumError, parse_uint, max_uint64,
  if◌then◌else◌,
}
use memaudit.Model.{Psi, CgroupMem}
use memaudit.Damon.Iomem.{cut}
use memaudit.K8s.Paths.{pod_uid, container_id}
use memaudit.K8s.Kubelet.{PodMeta}
use memaudit.Collector.Stat.{
  Stats, FileRead, content, absent, unreadable, StatError, read_failed, as_stat, read_uint_file,
  read_nullable_uint, read_memory_stat,
}

-- The named results of `parsePSIKV`.
pub record Averages {ℓ} (F : Type ℓ) : Type ℓ where
  pub avg10 : F
  pub avg60 : F
  pub avg300 : F
  pub total : ℕ

-- `LookupPod`: an error, or the pod if it is found.
abbrev pub Client {ℓ} : Type ℓ → Type ℓ
Client E = Bytes → Result E (Option PodMeta)

module _ {ℓ} {F : Type ℓ} (parse_float : Bytes → Result NumError F) (zero_float : F) where
  abbrev pub no_averages : Averages F
  no_averages = record { avg10 = zero_float; avg60 = zero_float; avg300 = zero_float; total = 0 }

  -- One `key=value`.
  abbrev pub set_average : Bytes → Bytes → Averages F → Result NumError (Averages F)
  set_average k v a =
      if bytes_eq k (codes "avg10")
      then (parse_float v >>= λ x. ok (record a { avg10 = x }))
      else if bytes_eq k (codes "avg60")
      then (parse_float v >>= λ x. ok (record a { avg60 = x }))
      else if bytes_eq k (codes "avg300")
      then (parse_float v >>= λ x. ok (record a { avg300 = x }))
      else if bytes_eq k (codes "total")
      then (parse_uint 10 max_uint64 v >>= λ n. ok (record a { total = n }))
      else ok a

  abbrev pub set_cut : Option (Bytes × Bytes) → Averages F → Result NumError (Averages F)
  set_cut none a = ok a
  set_cut (some (k, v)) a = set_average k v a

  unfoldable pub parse_psi_kv : List Bytes → Averages F → Result NumError (Averages F)
  parse_psi_kv [] a = ok a
  parse_psi_kv (f ∷ rest) a = set_cut (cut f (codes "=")) a >>= λ b. parse_psi_kv rest b

  abbrev pub no_psi : Psi F
  no_psi = record {
    some_avg10 = zero_float;
    some_avg60 = zero_float;
    some_avg300 = zero_float;
    some_total = 0;
    full_avg10 = zero_float;
    full_avg60 = zero_float;
    full_avg300 = zero_float;
    full_total = 0;
  }

  abbrev pub set_psi : Bytes → Averages F → Psi F → Psi F
  set_psi name a p =
      if bytes_eq name (codes "some")
      then record p {
        some_avg10 = a.avg10;
        some_avg60 = a.avg60;
        some_avg300 = a.avg300;
        some_total = a.total;
      }
      else if bytes_eq name (codes "full")
      then record p {
        full_avg10 = a.avg10;
        full_avg60 = a.avg60;
        full_avg300 = a.avg300;
        full_total = a.total;
      }
      else p

  -- A line of other than five fields is passed over.
  abbrev pub psi_line : List Bytes → Psi F → Result NumError (Psi F)
  psi_line (name ∷ a ∷ b ∷ c ∷ d ∷ []) p =
      parse_psi_kv (a ∷ b ∷ c ∷ d ∷ []) no_averages >>= λ r. ok (set_psi name r p)
  psi_line [] p = ok p
  psi_line (name ∷ []) p = ok p
  psi_line (name ∷ a ∷ []) p = ok p
  psi_line (name ∷ a ∷ b ∷ []) p = ok p
  psi_line (name ∷ a ∷ b ∷ c ∷ []) p = ok p
  psi_line (name ∷ a ∷ b ∷ c ∷ d ∷ e ∷ rest) p = ok p

  unfoldable pub psi_lines : List (List Bytes) → Psi F → Result NumError (Psi F)
  psi_lines [] p = ok p
  psi_lines (line ∷ lines) p = psi_line line p >>= λ q. psi_lines lines q

  unfoldable pub parse_cgroup_psi : Bytes → Result NumError (Psi F)
  parse_cgroup_psi b = psi_lines (map (λ (l : Bytes). fields l) (split_on 10 (trim_space b))) no_psi

  -- A missing file is no record.
  unfoldable pub read_cgroup_psi : FileRead → Result StatError (Option (Psi F))
  read_cgroup_psi (content b) = as_stat (parse_cgroup_psi b >>= λ p. ok (some p))
  read_cgroup_psi absent = ok none
  read_cgroup_psi unreadable = err read_failed

  abbrev pub with_pod {κ} : {E : Type κ} → Result E (Option PodMeta) → CgroupMem F → CgroupMem F
  with_pod (err e) rec = rec
  with_pod (ok none) rec = rec
  with_pod (ok (some meta)) rec = record rec {
    k8s_namespace = meta.namespace;
    k8s_pod = meta.name;
    k8s_labels = meta.labels;
  }

  abbrev pub with_container : Option Bytes → CgroupMem F → CgroupMem F
  with_container none rec = rec
  with_container (some cid) rec = record rec { k8s_container_id = cid }

  abbrev pub with_uid {κ} : {E : Type κ} → Client E → Option Bytes → CgroupMem F → CgroupMem F
  with_uid client none rec = rec
  with_uid client (some uid) rec = with_pod (client uid) rec

  -- A lookup that fails is logged.
  unfoldable pub enrich {κ} : {E : Type κ} → Option (Client E) → CgroupMem F → CgroupMem F
  enrich none rec = rec
  enrich (some client) rec =
      with_uid client (pod_uid rec.cgroup) (with_container (container_id rec.cgroup) rec)

  -- The fields that `readCgroup` reads from the files of a directory, by their names. The path, which the
  -- code sets before them, is set below.
  unfoldable pub read_fields : (Bytes → FileRead) → Result StatError (CgroupMem F)
  read_fields file = do
    current ← read_uint_file (file (codes "memory.current"))
    swap_current ← read_uint_file (file (codes "memory.swap.current"))
    max ← read_nullable_uint (file (codes "memory.max"))
    min ← read_nullable_uint (file (codes "memory.min"))
    low ← read_nullable_uint (file (codes "memory.low"))
    high ← read_nullable_uint (file (codes "memory.high"))
    peak ← read_nullable_uint (file (codes "memory.peak"))
    psi ← read_cgroup_psi (file (codes "memory.pressure"))
    stats ← read_memory_stat (file (codes "memory.stat"))
    ok (record {
      cgroup = [];
      current = current;
      max = max;
      min = min;
      low = low;
      high = high;
      peak = peak;
      swap_current = swap_current;
      psi = psi;
      stats = stats;
      k8s_namespace = [];
      k8s_pod = [];
      k8s_container_id = [];
      k8s_labels = none;
    })

  unfoldable pub read_cgroup {κ} :
      {E : Type κ} → Option (Client E) → (Bytes → FileRead) → Bytes → Result StatError (CgroupMem F)
  read_cgroup client file rel_path =
      read_fields file >>= λ rec. ok (enrich client (record rec { cgroup = rel_path }))
