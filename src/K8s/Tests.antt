-- ===== src/K8s/Tests.antt =====
-- Tests of internal/k8s, and the theorems at concrete inputs.
use memaudit.Base.{
  ◌≡◌, ◌↔◌, inr, refl, true, List, [], ◌∷◌, none, some, Bytes, codes, ok, err, arith, pos,
}
use memaudit.K8s.Paths.{pod_slice, container_scope, pod_uid, container_id, run_of, first_match}
use memaudit.K8s.Paths.Forms.{IsQos, IsUidText, slice_name, pod_slice_iff}
use memaudit.K8s.Paths.Lookup.{path_of, container_path, containerd, pod_uid-container_path}
use memaudit.K8s.Kubelet.{
  KubeletClientConfig, KubeletClient, client_of, PodItem, PodMeta, FetchCalls, FetchError,
  unreachable, LookupCalls,
}
use memaudit.K8s.Kubelet.Recent.{lookups, AllAnswered, lookups-AllAnswered}

-- The example of the comment on `PodUID`.
pod_uid_reads :
    pod_uid (
      codes
        "kubepods.slice/kubepods-burstable.slice/kubepods-burstable-pod1234abcd_5678_90ef_ab12_cdef34567890.slice")
    ≡ some (codes "1234abcd-5678-90ef-ab12-cdef34567890")
unfolding pod_uid first_match pod_slice run_of
pod_uid_reads = refl

pod_slice_iff_example : (pod_slice (codes "kubepods-burstable-pod12.slice") ≡ some (codes "12")) ↔ (
    (qos : Bytes) × IsQos qos
    × IsUidText (codes "12")
    × (codes "kubepods-burstable-pod12.slice" ≡ slice_name qos (codes "12")))
pod_slice_iff_example = pod_slice_iff (codes "kubepods-burstable-pod12.slice") (codes "12")

abbrev above : List Bytes
above = codes "kubepods.slice" ∷ codes "kubepods-burstable.slice" ∷ []

above_names_none :
    ((pod_slice (codes "kubepods.slice") ≡ none)
      × (pod_slice (codes "kubepods-burstable.slice") ≡ none))
    × ((container_scope (codes "kubepods.slice") ≡ none)
        × (container_scope (codes "kubepods-burstable.slice") ≡ none))
unfolding pod_slice container_scope run_of
above_names_none = ((refl, refl), (refl, refl))

pod_uid-container_path_example :
    (pod_uid (
        path_of
          (container_path above (codes "burstable-") (codes "12-ab") containerd (codes "c0ffee")))
      ≡ some (codes "12-ab"))
    × (container_id (
          path_of
            (container_path above (codes "burstable-") (codes "12-ab") containerd (codes "c0ffee")))
        ≡ some (codes "c0ffee"))
pod_uid-container_path_example =
    pod_uid-container_path above (codes "burstable-") (codes "12-ab") containerd (codes "c0ffee")
      (ground arith) (above_names_none.0.0, (above_names_none.0.1, tt))
      (above_names_none.1.0, (above_names_none.1.1, tt))
      (inr (codes "burstable", (λ e. absurd (ground arith)), ground arith, refl))
      (λ e. absurd (ground arith)) (ground arith) (λ e. absurd (ground arith)) (ground arith)

abbrev client : KubeletClient
client = client_of (record {
  base_url = codes "https://127.0.0.1:10250/";
  token = codes "t";
  ca_path = [];
  insecure_skip_verify = true;
  label_keys = codes "app" ∷ [];
  cache_ttl = pos 60;
})

abbrev pod : PodItem
pod = record {
  uid = codes "12-ab";
  namespace = codes "ml";
  name = codes "trainer";
  labels = (codes "app", codes "llm") ∷ (codes "rev", codes "7") ∷ [];
}

abbrev answered : FetchCalls
answered = record {
  request_ok = true;
  send = λ request. some (record { status = 200; decoded = some (pod ∷ []) });
}

abbrev down : FetchCalls
down = record { request_ok = true; send = λ request. none }

-- A fetch, an answer from the cache, and a fetch that fails.
abbrev three_queries : List (LookupCalls × Bytes)
three_queries =
    (record { asked = 100; fetch = answered; stored = 101 }, codes "12-ab")
    ∷ (record { asked = 160; fetch = down; stored = 160 }, codes "34")
    ∷ (record { asked = 161; fetch = down; stored = 161 }, codes "12-ab")
    ∷ []

abbrev trainer : PodMeta
trainer = record {
  namespace = codes "ml";
  name = codes "trainer";
  labels = some ((codes "app", codes "llm") ∷ []);
}

three_answers : lookups three_queries client ≡ ok (some trainer) ∷ ok none ∷ err unreachable ∷ []
unfolding lookups memaudit.K8s.Kubelet.lookup_pod memaudit.K8s.Kubelet.refresh_if_stale
    memaudit.K8s.Kubelet.is_stale memaudit.K8s.Kubelet.fetch_pods memaudit.K8s.Kubelet.add_pods
    memaudit.Base.find memaudit.K8s.Kubelet.filter_labels memaudit.K8s.Kubelet.pick_labels
three_answers = refl

lookups-AllAnswered_example : AllAnswered client none three_queries (lookups three_queries client)
lookups-AllAnswered_example = lookups-AllAnswered client refl three_queries
