-- ===== src/Collector/Cgroup.antt =====
-- internal/collector/cgroup.go: `NewCgroup`, `Collect`, `walk` and the matching of cgroup paths. The
-- match of one path element is `filepath.Match`, an argument; so is the reading of one cgroup.
pub mod Selection
pub mod Capped
pub mod Read
use memaudit.Base.{
  ℕ, suc, ◌+◌, Bool, true, false, ◌||◌, ◌&&◌, List, [], ◌∷◌, ◌++◌, map, any, Bytes, bytes_eq, codes,
  split_on, Result, ok, err, ◌>>=◌, ltb, leb, length, if◌then◌else◌,
}

abbrev pub max_cgroup_depth : ℕ
max_cgroup_depth = 5

-- A path below the cgroup root, and a glob, as lists of their elements.
abbrev pub Elements : Type 0
Elements = List Bytes

abbrev pub is_nil : Elements → Bool
is_nil [] = true
is_nil (s ∷ segs) = false

-- `**`: the rest of the pattern matches behind some number of elements.
abbrev pub behind_any : (Elements → Bool) → Elements → Bool
behind_any rest [] = rest []
behind_any rest (s ∷ segs) = rest (s ∷ segs) || behind_any rest segs

abbrev pub double_star : Bytes
double_star = codes "**"

-- What lists a directory: files, and child directories with their own entries or an unreadable listing.
pub data Entries : Type 0 where
  end : Entries
  file : Bytes → Entries → Entries
  folder : Bytes → Bool → Entries → Entries → Entries

pub data CollectError : Type 0 where
  stat_failed read_dir_failed read_cgroup_failed : CollectError

-- The records so far and whether the selection was cut.
pub record Walk {ℓ} (R : Type ℓ) : Type ℓ where
  pub out : List R
  pub truncated : Bool

pub data Probe : Type 0 where
  unified not_unified probe_failed : Probe

module _ (segment_matches : Bytes → Bytes → Bool) where
  unfoldable pub match_glob : Elements → Elements → Bool
  match_glob [] segs = is_nil segs
  match_glob (p ∷ pattern) [] =
      let rest = behind_any (λ l. match_glob pattern l) [] in
      if bytes_eq p double_star then rest else false
  match_glob (p ∷ pattern) (s ∷ segs) =
      let star = behind_any (λ l. match_glob pattern l) (s ∷ segs) in
      let one = match_glob pattern segs in
      if bytes_eq p double_star then star else if segment_matches p s then one else false

  unfoldable pub is_possible_prefix : Elements → Elements → Bool
  is_possible_prefix [] pattern = true
  is_possible_prefix (s ∷ segs) [] = false
  is_possible_prefix (s ∷ segs) (p ∷ pattern) =
      let rest = is_possible_prefix segs pattern in
      if bytes_eq p double_star then true else if segment_matches p s then rest else false

  unfoldable pub matches_any : Elements → List Elements → Bool
  matches_any segs [] = false
  matches_any segs (g ∷ globs) = match_glob g segs || matches_any segs globs

  unfoldable pub is_possible_prefix_for_any : Elements → List Elements → Bool
  is_possible_prefix_for_any segs [] = false
  is_possible_prefix_for_any segs (g ∷ globs) =
      is_possible_prefix segs g || is_possible_prefix_for_any segs globs

  module _ {ℓ} {R : Type ℓ} (globs : List Elements) (max : ℕ)
      (read_cgroup : Elements → Result CollectError R) where
    -- A directory is read and appended if a glob matches it.
    unfoldable pub select : Elements → Walk R → Result CollectError (Walk R)
    select segs w =
        if matches_any segs globs
        then (read_cgroup segs >>= λ r. ok (record w { out = w.out ++ r ∷ [] }))
        else ok w

    -- The listing of a child directory that may be worth it, and the walk below it.
    abbrev pub descend :
        Bool → Bool → Result CollectError (Walk R) → Walk R → Result CollectError (Walk R)
    descend true true deeper w = deeper
    descend true false deeper w = err read_dir_failed
    descend false readable deeper w = ok w

    -- The loop of `walk` over the entries of the directory at `segs`; a directory is descended into if a
    -- glob may match below it, and not below the depth cap.
    unfoldable pub walk : Entries → Elements → ℕ → Walk R → Result CollectError (Walk R)
    walk end segs depth w = ok w
    walk (file name rest) segs depth w =
        let further = walk rest segs depth w in
        if leb max (length w.out) then ok (record w { truncated = true }) else further
    walk (folder name readable children rest) segs depth w =
        let child = segs ++ name ∷ [] in
        let visited =
          select child w
          >>= (λ w₁.
              descend (ltb (depth + 1) max_cgroup_depth && is_possible_prefix_for_any child globs)
                readable (walk children child (depth + 1) w₁) w₁)
          >>= (λ w₂. walk rest segs depth w₂) in
        if leb max (length w.out) then ok (record w { truncated = true }) else visited

    -- `Collect`: a host without the unified hierarchy has no records.
    unfoldable pub collect : Probe → Bool → Entries → Result CollectError (List R)
    collect not_unified readable root = ok []
    collect probe_failed readable root = err stat_failed
    collect unified readable root =
        let walked = walk root [] 0 (record { out = []; truncated = false }) >>= (λ w. ok w.out) in
        if readable then walked else err read_dir_failed

-- `NewCgroup` splits the globs at the slashes.
abbrev pub new_cgroup : List Bytes → List Elements
new_cgroup globs = map (λ (g : Bytes). split_on b'/' g) globs
