-- ===== src/Collector/Cgroup/Read/Pod.antt =====
-- The records of containers.
use memaudit.Base.{
  ◌≡◌, ◌≢◌, ◌⊎◌, inl, inr, refl, List, [], All, Option, none, some, Bytes, Result, ok, err,
  NumError,
}
use memaudit.Model.{CgroupMem}
use memaudit.K8s.Paths.{is_hex, pod_slice, container_scope, pod_uid, container_id}
use memaudit.K8s.Paths.Forms.{IsQos}
use memaudit.K8s.Paths.Runs.{AllIn}
use memaudit.K8s.Paths.Lookup.{
  path_of, is_no_slash, is_uuid_char, Runtime, container_path, pod_uid-container_path,
}
use memaudit.K8s.Kubelet.{PodMeta}
use memaudit.Collector.Stat.{FileRead, StatError}
use memaudit.Collector.Cgroup.Read.{Client, with_pod, enrich, read_fields, read_cgroup}

module _ {ℓ κ} {F : Type ℓ} (parse_float : Bytes → Result NumError F) (zero_float : F) {E : Type κ}
    (client : Client E) (uid id : Bytes) where
  -- What a client adds to what is returned without one.
  pub data Enriches
      : Result StatError (CgroupMem F) → Result StatError (CgroupMem F) → Type (ℓ ⊔ κ) where
    no_record : (e : StatError) → Enriches (err e) (err e)
    found :
        {rec : CgroupMem F} {meta : PodMeta}
        → client uid ≡ ok (some meta)
        → Enriches (ok rec) (
            ok (record rec {
              k8s_namespace = meta.namespace;
              k8s_pod = meta.name;
              k8s_container_id = id;
              k8s_labels = meta.labels;
            }))
    not_found :
        {rec : CgroupMem F}
        → (client uid ≡ ok none) ⊎ ((e : E) × (client uid ≡ err e))
        → Enriches (ok rec) (ok (record rec { k8s_container_id = id }))

  enrich-Enriches :
      (rec : CgroupMem F)
      → pod_uid rec.cgroup ≡ some uid
      → container_id rec.cgroup ≡ some id
      → Enriches (ok rec) (ok (enrich parse_float zero_float (some client) rec))
  unfolding enrich
  enrich-Enriches rec u i = rw (u, i) (answered (client uid) refl)
    where
      answered :
          (r : Result E (Option PodMeta))
          → client uid ≡ r
          → Enriches
              (ok rec)
              (ok (with_pod parse_float zero_float r (record rec { k8s_container_id = id })))
      answered (err e) h = not_found (inr (e, h))
      answered (ok none) h = not_found (inl h)
      answered (ok (some meta)) h = found h

  read_cgroup-at :
      (file : Bytes → FileRead) (path : Bytes) (r : Result StatError (CgroupMem F))
      → pod_uid path ≡ some uid
      → container_id path ≡ some id
      → read_fields parse_float zero_float file ≡ r
      → Enriches
          (read_cgroup parse_float zero_float {E = E} none file path)
          (read_cgroup parse_float zero_float (some client) file path)
  unfolding read_cgroup enrich
  read_cgroup-at file path (err e) u i h = rw h (no_record e)
  read_cgroup-at file path (ok rec) u i h =
      rw h (enrich-Enriches (record rec { cgroup = path }) u i)

  -- For the cgroup of a container, named as the kubelet and the runtime name it, the client of the
  -- kubelet only adds to the record: the ID of the container, and where it finds the pod of that UID, the
  -- pod's namespace, name and labels. Where it fails or does not find the pod, the record is returned all
  -- the same, and an error is returned only where the files cannot be read.
  pub read_cgroup-Enriches :
      (file : Bytes → FileRead) (before : List Bytes) (qos : Bytes) (r : Runtime)
      → All (AllIn is_no_slash) before
      → All (λ (s : Bytes). pod_slice s ≡ none) before
      → All (λ (s : Bytes). container_scope s ≡ none) before
      → IsQos qos
      → uid ≢ []
      → AllIn is_uuid_char uid
      → id ≢ []
      → AllIn is_hex id
      → Enriches
          (read_cgroup parse_float zero_float {E = E} none file
            (path_of (container_path before qos uid r id)))
          (read_cgroup parse_float zero_float
            (some client)
            file
            (path_of (container_path before qos uid r id)))
  read_cgroup-Enriches file before qos r slashes no_pod no_scope is_qos some_uid uuid some_id hex =
      let (u, i) =
        pod_uid-container_path before qos uid r id slashes no_pod no_scope is_qos some_uid uuid
          some_id hex in
      read_cgroup-at file (path_of (container_path before qos uid r id))
        (read_fields parse_float zero_float file) u i refl
