-- ===== src/K8s/Paths/Lookup.antt =====
-- The pod and the container of a cgroup path, from the names that the kubelet gives to cgroups.
use memaudit.Base.{
  ℕ, ◌≡◌, ◌≢◌, inl, inr, refl, ap, ◌∙◌, Bool, true, false, ◌||◌, ◌==◌, List, [], ◌∷◌, ◌++◌, Option,
  none, some, Bytes, codes, cut_prefix-append, split_on, All, All-append, arith, if◌then◌else◌,
}
use memaudit.K8s.Paths.{
  is_lower, is_hex, is_uid_char, pod_slice, match_scope, container_scope, first_match, replace_all,
  pod_uid, container_id,
}
use memaudit.K8s.Paths.Forms.{IsQos, IsUidText, slice_name, pod_slice_iff}
use memaudit.K8s.Paths.Runs.{AllIn, AllIn-weaken, captured_iff}

-- The path of a cgroup from its elements.
abbrev pub path_of : List Bytes → Bytes
path_of [] = []
path_of (seg ∷ []) = seg
path_of (seg ∷ s ∷ segs) = seg ++ b'/' ∷ path_of (s ∷ segs)

abbrev pub is_no_slash : ℕ → Bool
is_no_slash c = if c == b'/' then false else true

split_on-element :
    (seg rest : Bytes)
    → AllIn is_no_slash seg
    → split_on b'/' (seg ++ b'/' ∷ rest) ≡ seg ∷ split_on b'/' rest
split_on-element [] rest all = refl
split_on-element (c ∷ seg) rest (h, all) = ground (arith, h, split_on-element seg rest all)

split_on-last : (seg : Bytes) → AllIn is_no_slash seg → split_on b'/' seg ≡ seg ∷ []
split_on-last [] all = refl
split_on-last (c ∷ seg) (h, all) = ground (arith, h, split_on-last seg all)

split_on-path_of :
    (seg : Bytes) (segs : List Bytes)
    → All (AllIn is_no_slash) (seg ∷ segs)
    → split_on b'/' (path_of (seg ∷ segs)) ≡ seg ∷ segs
split_on-path_of seg [] (h, all) = split_on-last seg h
split_on-path_of seg (s ∷ segs) (h, all) =
    split_on-element seg (path_of (s ∷ segs)) h
    ∙ ap (λ (l : List Bytes). seg ∷ l) (split_on-path_of s segs all)

first_match-skip :
    (f : Bytes → Option Bytes) (before segs : List Bytes)
    → All (λ (s : Bytes). f s ≡ none) before
    → first_match f (before ++ segs) ≡ first_match f segs
unfolding first_match
first_match-skip f [] segs all = refl
first_match-skip f (s ∷ before) segs (h, all) = rw h (first_match-skip f before segs all)

-- The bytes of a UID in the API, and of its text in the name of a slice.
abbrev pub is_uuid_char : ℕ → Bool
is_uuid_char c = is_hex c || (c == b'-')

abbrev pub uid_text : Bytes → Bytes
uid_text uid = replace_all b'-' b'_' uid

uid_text-chars : (uid : Bytes) → AllIn is_uuid_char uid → AllIn is_uid_char (uid_text uid)
uid_text-chars [] all = tt
uid_text-chars (c ∷ uid) (h, all) = (ground (arith, h), uid_text-chars uid all)

uid_text-back : (uid : Bytes) → AllIn is_uuid_char uid → replace_all b'_' b'-' (uid_text uid) ≡ uid
uid_text-back [] all = refl
uid_text-back (c ∷ uid) (h, all) = ground (arith, h, uid_text-back uid all)

uid_text-IsUidText : (uid : Bytes) → uid ≢ [] → AllIn is_uuid_char uid → IsUidText (uid_text uid)
uid_text-IsUidText [] ne all = absurd (ne refl)
uid_text-IsUidText (c ∷ uid) ne all = (λ h. absurd (ground arith), uid_text-chars (c ∷ uid) all)

-- The runtimes that the paths name.
pub data Runtime : Type 0 where
  containerd crio docker : Runtime

abbrev pub runtime_prefix : Runtime → Bytes
runtime_prefix containerd = codes "cri-containerd-"
runtime_prefix crio = codes "crio-"
runtime_prefix docker = codes "docker-"

abbrev pub scope_name : Runtime → Bytes → Bytes
scope_name r id = runtime_prefix r ++ (id ++ codes ".scope")

match_scope_name :
    (prefix id : Bytes)
    → id ≢ []
    → AllIn is_hex id
    → match_scope (prefix ++ (id ++ codes ".scope")) prefix ≡ some id
match_scope_name prefix id ne all =
    rw (cut_prefix-append prefix (id ++ codes ".scope"))
      ((captured_iff is_hex b'.' (codes "scope") (id ++ codes ".scope") id refl).1 (ne, all, refl))

container_scope_name :
    (r : Runtime) (id : Bytes)
    → id ≢ []
    → AllIn is_hex id
    → container_scope (scope_name r id) ≡ some id
unfolding container_scope
container_scope_name containerd id ne all =
    rw (match_scope_name (codes "cri-containerd-") id ne all) refl
container_scope_name crio id ne all = rw (match_scope_name (codes "crio-") id ne all) refl
container_scope_name docker id ne all = match_scope_name (codes "docker-") id ne all

slice-no-scope : (qos u : Bytes) → container_scope (slice_name qos u) ≡ none
unfolding container_scope
slice-no-scope qos u = refl

is_lower-no_slash : (c : ℕ) → is_lower c ≡ true → is_no_slash c ≡ true
is_lower-no_slash c h = ground arith

is_uid_char-no_slash : (c : ℕ) → is_uid_char c ≡ true → is_no_slash c ≡ true
is_uid_char-no_slash c h = ground arith

is_hex-no_slash : (c : ℕ) → is_hex c ≡ true → is_no_slash c ≡ true
is_hex-no_slash c h = ground arith

IsQos-no_slash : (qos : Bytes) → IsQos qos → AllIn is_no_slash qos
IsQos-no_slash qos (inl e) = rw e tt
IsQos-no_slash qos (inr (letters, ne, lower, e)) = rw e (
    All-append (λ (c : ℕ). is_no_slash c ≡ true) letters (b'-' ∷ [])
      (AllIn-weaken is_lower is_no_slash is_lower-no_slash letters lower) (refl, tt))

slice_name-no_slash :
    (qos u : Bytes) → IsQos qos → AllIn is_uid_char u → AllIn is_no_slash (slice_name qos u)
slice_name-no_slash qos u is_qos all = (
  refl,
  (
    refl,
    (
      refl,
      (
        refl,
        (
          refl,
          (
            refl,
            (
              refl,
              (
                refl,
                (
                  refl,
                  All-append (λ (c : ℕ). is_no_slash c ≡ true) qos
                      (codes "pod" ++ (u ++ codes ".slice")) (IsQos-no_slash qos is_qos)
                      (
                        refl,
                        (
                          refl,
                          (
                            refl,
                            All-append (λ (c : ℕ). is_no_slash c ≡ true) u (codes ".slice")
                                (AllIn-weaken is_uid_char is_no_slash is_uid_char-no_slash u all)
                                (refl, (refl, (refl, (refl, (refl, (refl, tt)))))),
                          ),
                        ),
                      ),
                ),
              ),
            ),
          ),
        ),
      ),
    ),
  ),
)

runtime_prefix-no_slash : (r : Runtime) → AllIn is_no_slash (runtime_prefix r)
runtime_prefix-no_slash containerd = ground arith
runtime_prefix-no_slash crio = ground arith
runtime_prefix-no_slash docker = ground arith

scope_name-no_slash :
    (r : Runtime) (id : Bytes) → AllIn is_hex id → AllIn is_no_slash (scope_name r id)
scope_name-no_slash r id all =
    All-append (λ (c : ℕ). is_no_slash c ≡ true) (runtime_prefix r) (id ++ codes ".scope")
      (runtime_prefix-no_slash r)
      (All-append (λ (c : ℕ). is_no_slash c ≡ true) id (codes ".scope")
        (AllIn-weaken is_hex is_no_slash is_hex-no_slash id all)
        (refl, (refl, (refl, (refl, (refl, (refl, tt)))))))

-- The elements of a container's cgroup below the ones that name neither a pod nor a container.
abbrev pub container_path : List Bytes → Bytes → Bytes → Runtime → Bytes → List Bytes
container_path before qos uid r id =
    before ++ (slice_name qos (uid_text uid) ∷ scope_name r id ∷ [])

split_on-before :
    (before : List Bytes) (seg : Bytes) (rest : List Bytes)
    → All (AllIn is_no_slash) before
    → All (AllIn is_no_slash) (seg ∷ rest)
    → split_on b'/' (path_of (before ++ seg ∷ rest)) ≡ before ++ seg ∷ rest
split_on-before [] seg rest all below = split_on-path_of seg rest below
split_on-before (s ∷ before) seg rest (h, all) below =
    split_on-path_of s (before ++ seg ∷ rest)
      (h, All-append (AllIn is_no_slash) before (seg ∷ rest) all below)

-- From the path of a container's cgroup, as the kubelet and the runtime name it, `PodUID` gives the UID
-- of the pod with its dashes and `ContainerID` the ID of the container, where no element above names a
-- pod or a container.
pub pod_uid-container_path :
    (before : List Bytes) (qos uid : Bytes) (r : Runtime) (id : Bytes)
    → All (AllIn is_no_slash) before
    → All (λ (s : Bytes). pod_slice s ≡ none) before
    → All (λ (s : Bytes). container_scope s ≡ none) before
    → IsQos qos
    → uid ≢ []
    → AllIn is_uuid_char uid
    → id ≢ []
    → AllIn is_hex id
    → (pod_uid (path_of (container_path before qos uid r id)) ≡ some uid)
      × (container_id (path_of (container_path before qos uid r id)) ≡ some id)
unfolding pod_uid container_id first_match
pod_uid-container_path before qos uid r id slashes no_pod no_scope is_qos some_uid uuid some_id
      hex =
    let text : IsUidText (uid_text uid) = uid_text-IsUidText uid some_uid uuid in
    let below : All (AllIn is_no_slash) (slice_name qos (uid_text uid) ∷ scope_name r id ∷ []) =
      (slice_name-no_slash qos (uid_text uid) is_qos text.1, (scope_name-no_slash r id hex, tt)) in
    let elements =
      split_on-before before (slice_name qos (uid_text uid)) (scope_name r id ∷ []) slashes below in
    let pod : pod_slice (slice_name qos (uid_text uid)) ≡ some (uid_text uid) =
      (pod_slice_iff (slice_name qos (uid_text uid)) (uid_text uid)).1 (qos, is_qos, text, refl) in
    (
      rw
          (
            elements,
            first_match-skip pod_slice before (slice_name qos (uid_text uid) ∷ scope_name r id ∷ [])
                no_pod,
            pod,
          )
          (ap (λ (u : Bytes). some u) (uid_text-back uid uuid)),
      rw
          (
            elements,
            first_match-skip container_scope before
                (slice_name qos (uid_text uid) ∷ scope_name r id ∷ []) no_scope,
            slice-no-scope qos (uid_text uid),
            container_scope_name r id some_id hex,
          )
          refl,
    )
