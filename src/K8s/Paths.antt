-- ===== src/K8s/Paths.antt =====
-- internal/k8s/paths.go: `PodUID` and `ContainerID`, with the two regular expressions written as what
-- they match. A greedy class is followed by a byte outside it, so that its longest run is the only one.
pub mod Runs
pub mod Forms
pub mod Lookup
use memaudit.Base.{
  ℕ, Bool, true, false, ◌&&◌, ◌||◌, ◌==◌, List, [], ◌∷◌, ◌++◌, map, Option, none, some, Bytes,
  bytes_eq, codes, cut_prefix, split_on, leb, if◌then◌else◌,
}

abbrev pub is_lower : ℕ → Bool
is_lower c = leb b'a' c && leb c b'z'

abbrev pub is_hex : ℕ → Bool
is_hex c = (leb b'0' c && leb c b'9') || (leb b'a' c && leb c b'f')

-- The class `[0-9a-f_]`.
abbrev pub is_uid_char : ℕ → Bool
is_uid_char c = is_hex c || (c == b'_')

-- The longest run of a class at the start, and the rest.
unfoldable pub run_of : (ℕ → Bool) → Bytes → Bytes × Bytes
run_of p [] = ([], [])
run_of p (c ∷ s) = let (run, rest) = run_of p s in if p c then (c ∷ run, rest) else ([], c ∷ s)

-- A run that is not empty and has exactly `suffix` behind it.
abbrev pub captured : Bytes → Bytes × Bytes → Option Bytes
captured suffix ([], rest) = none
captured suffix (c ∷ run, rest) = if bytes_eq rest suffix then some (c ∷ run) else none

abbrev pub then_match : Option Bytes → (Bytes → Option Bytes) → Option Bytes
then_match none k = none
then_match (some rest) k = k rest

abbrev pub or_match : Option Bytes → Option Bytes → Option Bytes
or_match (some m) later = some m
or_match none later = later

-- `pod([0-9a-f_]+)\.slice$`.
abbrev pub match_pod : Bytes → Option Bytes
match_pod s =
    then_match (cut_prefix s (codes "pod")) (λ r. captured (codes ".slice") (run_of is_uid_char r))

-- `[a-z]+-` and then the pod.
abbrev pub match_behind_qos : Bytes × Bytes → Option Bytes
match_behind_qos ([], rest) = none
match_behind_qos (c ∷ run, []) = none
match_behind_qos (c ∷ run, d ∷ rest) = if d == b'-' then match_pod rest else none

-- The capture of `podSliceRE`.
unfoldable pub pod_slice : Bytes → Option Bytes
pod_slice seg =
    then_match (cut_prefix seg (codes "kubepods-"))
      (λ r. or_match (match_behind_qos (run_of is_lower r)) (match_pod r))

abbrev pub match_scope : Bytes → Bytes → Option Bytes
match_scope seg runtime =
    then_match (cut_prefix seg runtime) (λ r. captured (codes ".scope") (run_of is_hex r))

-- The capture of `containerScopeRE`.
unfoldable pub container_scope : Bytes → Option Bytes
container_scope seg =
    or_match (match_scope seg (codes "cri-containerd-"))
      (or_match (match_scope seg (codes "crio-")) (match_scope seg (codes "docker-")))

-- The first element that matches.
unfoldable pub first_match : (Bytes → Option Bytes) → List Bytes → Option Bytes
first_match f [] = none
first_match f (seg ∷ segs) = or_match (f seg) (first_match f segs)

-- strings.ReplaceAll of one byte by another.
abbrev pub replace_all : ℕ → ℕ → Bytes → Bytes
replace_all old new s = map (λ (c : ℕ). if c == old then new else c) s

abbrev pub dashed : Option Bytes → Option Bytes
dashed none = none
dashed (some uid) = some (replace_all b'_' b'-' uid)

unfoldable pub pod_uid : Bytes → Option Bytes
pod_uid cgroup_path = dashed (first_match pod_slice (split_on b'/' cgroup_path))

unfoldable pub container_id : Bytes → Option Bytes
container_id cgroup_path = first_match container_scope (split_on b'/' cgroup_path)
