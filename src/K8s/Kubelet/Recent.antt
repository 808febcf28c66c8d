-- ===== src/K8s/Kubelet/Recent.antt =====
-- What the answers of the client rest on, over any number of lookups.
use memaudit.Base.{
  ℕ, ◌+◌, ◌<◌, ◌≤◌, ◌≡◌, refl, sym, subst, inl, inr, true, List, [], ◌∷◌, Option, none, some, Bytes,
  Result, ok, err, leb, leb→le, Bool-cases, arith,
}
use memaudit.K8s.Kubelet.{
  PodMeta, PodItem, KubeletClient, FetchError, FetchCalls, fetch_pods, LookupCalls, is_stale,
  refreshed, store_fetched, refresh_if_stale, look_up, lookup_pod,
}
use memaudit.K8s.Kubelet.Pods.{Describes, find-Describes}

-- A fetch that succeeded, and when it was stored.
pub record Fetched : Type 0 where
  pub at : ℕ
  pub items : List PodItem

-- The lookups of a list, one after the other, with their answers.
unfoldable pub lookups :
    List (LookupCalls × Bytes) → KubeletClient → List (Result FetchError (Option PodMeta))
lookups [] c = []
lookups ((calls, uid) ∷ rest) c = let (c', r) = lookup_pod calls uid c in r ∷ lookups rest c'

module _ (c : KubeletClient) where
  -- The client behind its last successful fetch.
  abbrev client_after : Option Fetched → KubeletClient
  client_after none = c
  client_after (some f) = refreshed f.at c f.items

  abbrev pub IsOver : LookupCalls → Option Fetched → Type 0
  IsOver calls none = Unit
  IsOver calls (some f) = f.at + c.cache_ttl ≤ calls.asked

  -- One answer, with the last fetch before and after it.
  pub data Answered (calls : LookupCalls) (uid : Bytes)
      : Option Fetched → Option Fetched → Result FetchError (Option PodMeta) → Type 0 where
    from_cache :
        {m : Option PodMeta} (f : Fetched)
        → calls.asked < f.at + c.cache_ttl
        → Describes c.label_keys uid f.items m
        → Answered calls uid (some f) (some f) (ok m)
    from_fetch :
        {m : Option PodMeta} (last : Option Fetched) (items : List PodItem)
        → IsOver calls last
        → fetch_pods calls.fetch c ≡ ok items
        → Describes c.label_keys uid items m
        → Answered calls uid last (some (record { at = calls.stored; items = items })) (ok m)
    failed :
        {e : FetchError} (last : Option Fetched)
        → IsOver calls last
        → fetch_pods calls.fetch c ≡ err e
        → Answered calls uid last last (err e)

  pub data AllAnswered
      : Option Fetched
        → List (LookupCalls × Bytes)
        → List (Result FetchError (Option PodMeta))
        → Type 0 where
    no_more : {last : Option Fetched} → AllAnswered last [] []
    more :
        {last last' : Option Fetched} {calls : LookupCalls} {uid : Bytes}
        {rest : List (LookupCalls × Bytes)} {r : Result FetchError (Option PodMeta)}
        {rs : List (Result FetchError (Option PodMeta))}
        → Answered calls uid last last' r
        → AllAnswered last' rest rs
        → AllAnswered last ((calls, uid) ∷ rest) (r ∷ rs)

  abbrev Answers :
      LookupCalls
      → Bytes
      → Option Fetched
      → KubeletClient × Result FetchError (Option PodMeta)
      → Type 0
  Answers calls uid last r =
      (last' : Option Fetched) × (r.0 ≡ client_after last') × Answered calls uid last last' r.1

  fetch_pods_after :
      (calls : FetchCalls) (last : Option Fetched)
      → fetch_pods calls (client_after last) ≡ fetch_pods calls c
  unfolding fetch_pods
  fetch_pods_after calls none = refl
  fetch_pods_after calls (some f) = refl

  stored-Answers :
      (calls : LookupCalls) (uid : Bytes) (last : Option Fetched)
      (r : Result FetchError (List PodItem))
      → fetch_pods calls.fetch c ≡ r
      → IsOver calls last
      → Answers calls uid last (look_up uid (store_fetched calls.stored (client_after last) r))
  stored-Answers calls uid last (err e) fetched over = (last, refl, failed last over fetched)
  stored-Answers calls uid none (ok items) fetched over = (
    some (record { at = calls.stored; items = items }),
    refl,
    from_fetch none items over fetched (find-Describes c.label_keys uid items),
  )
  stored-Answers calls uid (some f) (ok items) fetched over = (
    some (record { at = calls.stored; items = items }),
    refl,
    from_fetch (some f) items over fetched (find-Describes c.label_keys uid items),
  )

  is_stale_empty : (now : ℕ) → c.cache ≡ none → is_stale now c ≡ true
  unfolding is_stale
  is_stale_empty now empty = rw empty refl

  is_stale_after :
      (now : ℕ) (f : Fetched) → is_stale now (client_after (some f)) ≡ leb (f.at + c.cache_ttl) now
  unfolding is_stale
  is_stale_after now f = refl

  lookup_pod-Answers :
      c.cache ≡ none
      → (calls : LookupCalls) (uid : Bytes) (last : Option Fetched)
      → Answers calls uid last (lookup_pod calls uid (client_after last))
  unfolding lookup_pod refresh_if_stale
  lookup_pod-Answers empty calls uid none =
      rw (is_stale_empty calls.asked empty)
        (stored-Answers calls uid none (fetch_pods calls.fetch c) refl tt)
  lookup_pod-Answers empty calls uid (some f) =
      elim (Bool-cases (leb (f.at + c.cache_ttl) calls.asked)) [
        | inl e ↦
            rw (is_stale_after calls.asked f, e, fetch_pods_after calls.fetch (some f))
              (stored-Answers calls uid (some f) (fetch_pods calls.fetch c) refl
                (leb→le (f.at + c.cache_ttl) calls.asked e))
        | inr e ↦
            rw (is_stale_after calls.asked f, e)
              (
                some f,
                refl,
                from_cache f (ground (arith, e)) (find-Describes c.label_keys uid f.items),
              )
      ]

  lookups_after :
      c.cache ≡ none
      → (queries : List (LookupCalls × Bytes)) (last : Option Fetched)
      → AllAnswered last queries (lookups queries (client_after last))
  unfolding lookups
  lookups_after empty [] last = no_more
  lookups_after empty ((calls, uid) ∷ rest) last =
      let (last', same, a) = lookup_pod-Answers empty calls uid last in
      more a (
        subst (λ (d : KubeletClient). AllAnswered last' rest (lookups rest d)) (sym same)
          (lookups_after empty rest last'))

  -- Every answer of a client whose cache starts empty comes from a list of pods: the last one that was
  -- fetched, if it was stored less than the TTL before, or one that is fetched now; the fetch fails the
  -- lookup only where the list is too old, and leaves the list in place. The answer is the last item with
  -- the UID, with its allowed labels, or none where no item has it.
  pub lookups-AllAnswered :
      c.cache ≡ none
      → (queries : List (LookupCalls × Bytes)) → AllAnswered none queries (lookups queries c)
  lookups-AllAnswered empty queries = lookups_after empty queries none
