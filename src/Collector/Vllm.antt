-- ===== src/Collector/Vllm.antt =====
-- internal/collector/vllm.go: the records of the vLLM endpoints. `F` stands for the floating-point
-- numbers; the HTTP client and the parser of the exposition format are answers. The fields are visited in
-- one order, which the code leaves open; only the order of the log lines depends on it.
pub mod Warned
use memaudit.Base.{
  ℕ, Bool, ◌==◌, List, [], ◌∷◌, ◌++◌, any, Option, none, some, Bytes, bytes_eq, codes, Result, ok,
  err, Assoc, find, if◌then◌else◌,
}
use memaudit.Model.{Vllm}

-- A metric of one of the three kinds that are read.
pub record Metric {ℓ} (F : Type ℓ) : Type ℓ where
  pub gauge : Option F
  pub counter : Option F
  pub untyped : Option F

-- The metric families by their names.
abbrev pub Families {ℓ} : Type ℓ → Type ℓ
Families F = Assoc (List (Metric F))

pub data ScrapeError : Type 0 where
  scrape_request scrape_unreachable scrape_status scrape_malformed : ScrapeError

pub record ScrapeResponse {ℓ} (F : Type ℓ) : Type ℓ where
  pub status : ℕ
  pub families : Option (Families F)

-- The names of `vllmFields`.
abbrev pub vllm_fields : List Bytes
vllm_fields =
    codes "cache_usage"
    ∷ codes "prefix_hits"
    ∷ codes "prefix_queries"
    ∷ codes "preemptions"
    ∷ codes "running"
    ∷ codes "waiting"
    ∷ codes "prompt_tokens"
    ∷ codes "gen_tokens"
    ∷ []

module _ {ℓ} {F : Type ℓ} (zero_float : F) where
  abbrev pub first_kind : Option F → Option F → Option F → F
  first_kind (some v) counter untyped = v
  first_kind none (some v) untyped = v
  first_kind none none (some v) = v
  first_kind none none none = zero_float

  unfoldable pub metric_value : Metric F → F
  metric_value m = first_kind m.gauge m.counter m.untyped

  abbrev pub parsed : Option (Families F) → Result ScrapeError (Families F)
  parsed none = err scrape_malformed
  parsed (some families) = ok families

  abbrev pub read_scrape : Option (ScrapeResponse F) → Result ScrapeError (Families F)
  read_scrape none = err scrape_unreachable
  read_scrape (some r) = if r.status == 200 then parsed r.families else err scrape_status

  -- `ScrapeMetrics`: `get` is the client's answer to a GET of a URL, and `none` that there is no such URL.
  unfoldable pub scrape_metrics :
      (Bytes → Option (Option (ScrapeResponse F))) → Bytes → Result ScrapeError (Families F)
  scrape_metrics get endpoint = elim (get (endpoint ++ codes "/metrics")) [
    | none ↦ err scrape_request
    | some response ↦ read_scrape response
  ]

  -- A record as it is filled in, and the names warned of so far, the last one first.
  pub record Build : Type ℓ where
    pub filled : Vllm F
    pub warned : List Bytes

  abbrev pub set_field : Bytes → F → Build → Build
  set_field name v b = record b {
    filled = record b.filled { fields = λ k. if bytes_eq k name then v else b.filled.fields k };
  }

  abbrev pub is_warned : Bytes → List Bytes → Bool
  is_warned name warned = any (λ (w : Bytes). bytes_eq name w) warned

  -- `warnUnmatchedOnce`.
  unfoldable pub warn_unmatched_once : Bytes → Build → Build
  warn_unmatched_once name b =
      if is_warned name b.warned then b else record b { warned = name ∷ b.warned }

  abbrev pub set_from : Bytes → Bytes → Option (List (Metric F)) → Build → Build
  set_from name metric none b = warn_unmatched_once metric b
  set_from name metric (some []) b = warn_unmatched_once metric b
  set_from name metric (some (m ∷ ms)) b = set_field name (metric_value m) b

  -- A field without a metric name is passed over.
  abbrev pub fill_field : Families F → Bytes → Option Bytes → Build → Build
  fill_field families name none b = b
  fill_field families name (some metric) b =
      if bytes_eq metric [] then b else set_from name metric (find metric families) b

  unfoldable pub fill_fields : Assoc Bytes → Families F → List Bytes → Build → Build
  fill_fields metric_map families [] b = b
  fill_fields metric_map families (name ∷ names) b =
      fill_fields metric_map families names (fill_field families name (find name metric_map) b)

  unfoldable pub build_record : Assoc Bytes → Bytes → Families F → List Bytes → Build
  build_record metric_map endpoint families warned =
      fill_fields metric_map families vllm_fields (record {
        filled = record { endpoint = endpoint; fields = λ k. zero_float };
        warned = warned;
      })

  abbrev pub add_record :
      Build → (List Bytes → List (Vllm F) × List Bytes) → List (Vllm F) × List Bytes
  add_record b later = let (recs, warned) = later b.warned in (b.filled ∷ recs, warned)

  abbrev pub or_skip :
      Assoc Bytes
      → Bytes
      → Result ScrapeError (Families F)
      → List Bytes
      → (List Bytes → List (Vllm F) × List Bytes)
      → List (Vllm F) × List Bytes
  or_skip metric_map endpoint (err e) warned later = later warned
  or_skip metric_map endpoint (ok families) warned later =
      add_record (build_record metric_map endpoint families warned) later

  -- `Collect`: an endpoint that cannot be scraped is passed over.
  unfoldable pub collect_vllm :
      (Bytes → Option (Option (ScrapeResponse F)))
      → Assoc Bytes
      → List Bytes
      → List Bytes
      → List (Vllm F) × List Bytes
  collect_vllm get metric_map [] warned = ([], warned)
  collect_vllm get metric_map (endpoint ∷ endpoints) warned =
      or_skip metric_map endpoint (scrape_metrics get endpoint) warned
        (λ w. collect_vllm get metric_map endpoints w)
