-- ===== src/K8s/Kubelet.antt =====
-- internal/k8s/kubelet.go: the client that resolves a UID by the kubelet's list of pods, which it keeps
-- for a while. A map is an association list. The HTTP client and the clock are arguments; times are
-- nanoseconds, and the clock does not run backwards.
pub mod Recent
pub mod Pods
use memaudit.Base.{
  Assoc, find, ℕ, zero, suc, ◌+◌, ◌*◌, ◌==◌, Bool, true, false, not, ◌&&◌, ◌||◌, List, [], ◌∷◌,
  ◌++◌, Option, none, some, Bytes, bytes_eq, codes, cut_suffix, Result, ok, err, ◌>>=◌, leb, ℤ, pos,
  negsuc, if◌then◌else◌,
}

abbrev pub default_cache_ttl : ℕ
default_cache_ttl = 60 * 1000000000

pub record PodMeta : Type 0 where
  pub namespace : Bytes
  pub name : Bytes
  pub labels : Option (Assoc Bytes)

-- `podMetadata`, of an item of the list of pods.
pub record PodItem : Type 0 where
  pub uid : Bytes
  pub namespace : Bytes
  pub name : Bytes
  pub labels : Assoc Bytes

-- What is read where the client is built: the file of the CA, if it can be read.
pub record KubeletClientConfig : Type 0 where
  pub base_url : Bytes
  pub token : Bytes
  pub ca_path : Bytes
  pub insecure_skip_verify : Bool
  pub label_keys : List Bytes
  pub cache_ttl : ℤ

pub record KubeletClient : Type 0 where
  pub base_url : Bytes
  pub token : Bytes
  pub label_keys : List Bytes
  pub cache_ttl : ℕ
  pub cache : Option (Assoc PodMeta)
  pub cached_at : ℕ

-- What verifies the certificate of the kubelet: nothing, the system's pool, or the given CA.
pub data Verification : Type 0 where
  unverified system_pool : Verification
  pool : Bytes → Verification

pub data TransportError : Type 0 where
  ca_unreadable no_certificates : TransportError

abbrev pub ca_pool : (Bytes → Bool) → Option Bytes → Result TransportError Verification
ca_pool has_certificates none = err ca_unreadable
ca_pool has_certificates (some pem) =
    if has_certificates pem then ok (pool pem) else err no_certificates

-- `kubeletTransport`: `ca` is the content of the file, `has_certificates` is `AppendCertsFromPEM`.
unfoldable pub kubelet_transport :
    (Bytes → Bool) → Bytes → Bool → Option Bytes → Result TransportError Verification
kubelet_transport has_certificates ca_path insecure ca =
    if insecure
    then ok unverified
    else if bytes_eq ca_path []
    then ok system_pool
    else ca_pool has_certificates ca

abbrev pub positive_or_ttl : ℤ → ℕ
positive_or_ttl (pos zero) = default_cache_ttl
positive_or_ttl (pos (suc n)) = suc n
positive_or_ttl (negsuc n) = default_cache_ttl

abbrev pub trim_suffix : Bytes → Bytes → Bytes
trim_suffix s t = elim (cut_suffix s t) [ none ↦ s | some r ↦ r ]

abbrev pub client_of : KubeletClientConfig → KubeletClient
client_of cfg = record {
  base_url = trim_suffix cfg.base_url (codes "/");
  token = cfg.token;
  label_keys = cfg.label_keys;
  cache_ttl = positive_or_ttl cfg.cache_ttl;
  cache = none;
  cached_at = 0;
}

-- `NewKubeletClient`, where no HTTP client is given, with what its transport verifies.
unfoldable pub new_kubelet_client :
    (Bytes → Bool)
    → KubeletClientConfig
    → Option Bytes
    → Result TransportError (KubeletClient × Verification)
new_kubelet_client has_certificates cfg ca =
    kubelet_transport has_certificates cfg.ca_path cfg.insecure_skip_verify ca >>= λ v.
    ok (client_of cfg, v)

-- The labels with an allowed key; `none` is the nil map.
abbrev pub pick_label : Bytes → Option Bytes → Assoc Bytes → Assoc Bytes
pick_label k none out = out
pick_label k (some v) out = (k, v) ∷ out

unfoldable pub pick_labels : List Bytes → Assoc Bytes → Assoc Bytes
pick_labels [] labels = []
pick_labels (k ∷ allow) labels = pick_label k (find k labels) (pick_labels allow labels)

abbrev pub nil_if_empty : Assoc Bytes → Option (Assoc Bytes)
nil_if_empty [] = none
nil_if_empty (l ∷ labels) = some (l ∷ labels)

abbrev pub is_empty {ℓ} : {A : Type ℓ} → List A → Bool
is_empty [] = true
is_empty (a ∷ rest) = false

unfoldable pub filter_labels : Assoc Bytes → List Bytes → Option (Assoc Bytes)
filter_labels labels allow =
    if is_empty labels || is_empty allow then none else nil_if_empty (pick_labels allow labels)

pub record Request : Type 0 where
  pub url : Bytes
  pub authorization : Option Bytes

-- The status, and what the decoder makes of the body.
pub record Response : Type 0 where
  pub status : ℕ
  pub decoded : Option (List PodItem)

pub data FetchError : Type 0 where
  bad_request unreachable bad_status undecodable : FetchError

-- `send` is `httpClient.Do`.
pub record FetchCalls : Type 0 where
  pub request_ok : Bool
  pub send : Request → Option Response

abbrev pub decode : Option (List PodItem) → Result FetchError (List PodItem)
decode none = err undecodable
decode (some items) = ok items

abbrev pub read_response : Option Response → Result FetchError (List PodItem)
read_response none = err unreachable
read_response (some r) = if r.status == 200 then decode r.decoded else err bad_status

abbrev pub pods_request : KubeletClient → Request
pods_request c = record {
  url = c.base_url ++ codes "/pods";
  authorization = if bytes_eq c.token [] then none else some (codes "Bearer " ++ c.token);
}

unfoldable pub fetch_pods : FetchCalls → KubeletClient → Result FetchError (List PodItem)
fetch_pods calls c =
    if calls.request_ok then read_response (calls.send (pods_request c)) else err bad_request

abbrev pub meta_of : List Bytes → PodItem → PodMeta
meta_of label_keys item = record {
  namespace = item.namespace;
  name = item.name;
  labels = filter_labels item.labels label_keys;
}

-- The loop over the items: an item replaces one with its UID before it.
unfoldable pub add_pods : List Bytes → List PodItem → Assoc PodMeta → Assoc PodMeta
add_pods label_keys [] cache = cache
add_pods label_keys (item ∷ items) cache =
    add_pods label_keys items ((item.uid, meta_of label_keys item) ∷ cache)

-- The answers to a lookup: the clock at the test and where the cache is replaced, and the fetch.
pub record LookupCalls : Type 0 where
  pub asked : ℕ
  pub fetch : FetchCalls
  pub stored : ℕ

unfoldable pub is_stale : ℕ → KubeletClient → Bool
is_stale now c = elim c.cache [ none ↦ true | some cache ↦ leb (c.cached_at + c.cache_ttl) now ]

abbrev pub refreshed : ℕ → KubeletClient → List PodItem → KubeletClient
refreshed now c items = record c { cache = some (add_pods c.label_keys items []); cached_at = now }

abbrev pub store_fetched :
    ℕ
    → KubeletClient
    → Result FetchError (List PodItem)
    → KubeletClient × Result FetchError (Unit {0})
store_fetched now c (err e) = (c, err e)
store_fetched now c (ok items) = (refreshed now c items, ok tt)

unfoldable pub refresh_if_stale :
    LookupCalls → KubeletClient → KubeletClient × Result FetchError (Unit {0})
refresh_if_stale calls c =
    if is_stale calls.asked c
    then store_fetched calls.stored c (fetch_pods calls.fetch c)
    else (c, ok tt)

abbrev pub find_cached : Bytes → Option (Assoc PodMeta) → Option PodMeta
find_cached uid none = none
find_cached uid (some cache) = find uid cache

abbrev pub look_up :
    Bytes
    → KubeletClient × Result FetchError (Unit {0})
    → KubeletClient × Result FetchError (Option PodMeta)
look_up uid (c, err e) = (c, err e)
look_up uid (c, ok u) = (c, ok (find_cached uid c.cache))

unfoldable pub lookup_pod :
    LookupCalls → Bytes → KubeletClient → KubeletClient × Result FetchError (Option PodMeta)
lookup_pod calls uid c = look_up uid (refresh_if_stale calls c)
