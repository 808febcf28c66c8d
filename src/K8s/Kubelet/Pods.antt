-- ===== src/K8s/Kubelet/Pods.antt =====
-- What the cached list of pods says about a UID.
use memaudit.Base.{
  Assoc, find, ◌≡◌, ◌≢◌, ◌⊎◌, inl, inr, refl, sym, ap, ◌∙◌, Bool, true, false, List, [], ◌∷◌, ◌++◌,
  any, Option, none, some, Option-cases, Bytes, bytes_eq, bytes_eq_refl, bytes_eq_sound, Bool-cases,
  All, arith, if◌then◌else◌,
}
use memaudit.K8s.Kubelet.{
  PodMeta, PodItem, pick_labels, nil_if_empty, filter_labels, meta_of, add_pods,
}

abbrev pub entries : Option (Assoc Bytes) → Assoc Bytes
entries none = []
entries (some labels) = labels

abbrev pub is_key : Bytes → List Bytes → Bool
is_key k allow = any (λ (l : Bytes). bytes_eq k l) allow

if_none : (b : Bool) (o : Option Bytes) → o ≡ none → (if b then o else none) ≡ o
if_none true o h = refl
if_none false o h = sym h

find-pick_labels :
    (k : Bytes) (allow : List Bytes) (labels : Assoc Bytes)
    → find k (pick_labels allow labels) ≡ (if is_key k allow then find k labels else none)
unfolding find pick_labels
find-pick_labels k [] labels = refl
find-pick_labels k (l ∷ allow) labels = elim (Bool-cases (bytes_eq k l)) [
  | inl e ↦ elim (Option-cases (find l labels)) [
    | inl f ↦
        let absent : find k labels ≡ none =
          ap (λ (x : Bytes). find x labels) (bytes_eq_sound k l e) ∙ f in
        rw (f, e)
          (find-pick_labels k allow labels ∙ if_none (is_key k allow) (find k labels) absent)
    | inr (v, f) ↦ rw (f, e) (sym (ap (λ (x : Bytes). find x labels) (bytes_eq_sound k l e) ∙ f))
  ]
  | inr e ↦ elim (Option-cases (find l labels)) [
    | inl f ↦ rw (f, e) (find-pick_labels k allow labels)
    | inr (v, f) ↦ rw (f, e) (find-pick_labels k allow labels)
  ]
]

entries-nil_if_empty : (out : Assoc Bytes) → entries (nil_if_empty out) ≡ out
entries-nil_if_empty [] = refl
entries-nil_if_empty (l ∷ out) = refl

-- Which labels a record carries: the allowed ones of the pod, with their values.
abbrev pub AreAllowed : List Bytes → Assoc Bytes → Option (Assoc Bytes) → Type 0
AreAllowed allow labels out =
    (k : Bytes) → find k (entries out) ≡ (if is_key k allow then find k labels else none)

filter_labels-AreAllowed :
    (labels : Assoc Bytes) (allow : List Bytes)
    → AreAllowed allow labels (filter_labels labels allow)
unfolding filter_labels find pick_labels
filter_labels-AreAllowed [] allow k = ground arith
filter_labels-AreAllowed (l ∷ labels) [] k = refl
filter_labels-AreAllowed (l ∷ labels) (a ∷ allow) k =
    ap (λ (m : Assoc Bytes). find k m) (entries-nil_if_empty (pick_labels (a ∷ allow) (l ∷ labels)))
    ∙ find-pick_labels k (a ∷ allow) (l ∷ labels)

-- What a list of pods says about a UID: nothing, or the last item with it.
pub data Describes (allow : List Bytes) (uid : Bytes) (items : List PodItem)
    : Option PodMeta → Type 0 where
  unknown : All (λ (i : PodItem). i.uid ≢ uid) items → Describes allow uid items none
  known :
      (before after : List PodItem) (item : PodItem) (m : PodMeta)
      → items ≡ before ++ item ∷ after
      → item.uid ≡ uid
      → All (λ (i : PodItem). i.uid ≢ uid) after
      → m.namespace ≡ item.namespace
      → m.name ≡ item.name
      → AreAllowed allow item.labels m.labels
      → Describes allow uid items (some m)

-- What the loop has found so far, `seen` from the items before it.
add_pods-skips :
    (allow : List Bytes) (uid : Bytes) (items : List PodItem) (cache : Assoc PodMeta)
    → ((before after : List PodItem) × (item : PodItem) × (items ≡ before ++ item ∷ after)
        × (item.uid ≡ uid)
        × All (λ (i : PodItem). i.uid ≢ uid) after
        × (find uid (add_pods allow items cache) ≡ some (meta_of allow item)))
      ⊎ (All (λ (i : PodItem). i.uid ≢ uid) items
          × (find uid (add_pods allow items cache) ≡ find uid cache))
unfolding add_pods find
add_pods-skips allow uid [] cache = inr (tt, refl)
add_pods-skips allow uid (i ∷ items) cache =
    elim (add_pods-skips allow uid items ((i.uid, meta_of allow i) ∷ cache)) [
      | inl (before, after, item, split, same, none_after, found) ↦
          inl (
            i ∷ before,
            after,
            item,
            ap (λ (l : List PodItem). i ∷ l) split,
            same,
            none_after,
            found,
          )
      | inr (none_left, found) ↦ elim (Bool-cases (bytes_eq uid i.uid)) [
        | inl e ↦
            inl ([], items, i, refl, sym (bytes_eq_sound uid i.uid e), none_left, rw e at found)
        | inr e ↦ inr (
          ((λ same. absurd (ground (arith, e, same, bytes_eq_refl uid))), none_left),
          rw e at found,
        )
      ]
    ]

pub find-Describes :
    (allow : List Bytes) (uid : Bytes) (items : List PodItem)
    → Describes allow uid items (find uid (add_pods allow items []))
unfolding find
find-Describes allow uid items = elim (add_pods-skips allow uid items []) [
  | inl (before, after, item, split, same, none_after, found) ↦ rw found (
      known before after item (meta_of allow item) split same none_after refl refl
        (filter_labels-AreAllowed item.labels allow))
  | inr (none_left, found) ↦ rw found (unknown none_left)
]
