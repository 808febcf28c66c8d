-- ===== src/Collector/Vllm/Warned.antt =====
-- Which metrics are warned of.
use memaudit.Base.{
  ◌≡◌, inl, inr, false, List, [], ◌∷◌, Option, none, some, Bytes, bytes_eq, Result, ok, err, Assoc,
  find, Bool-cases,
}
use memaudit.Model.{Vllm}
use memaudit.Collector.Vllm.{
  Metric, Families, ScrapeError, ScrapeResponse, scrape_metrics, Build, is_warned,
  warn_unmatched_once, set_from, fill_field, fill_fields, vllm_fields, build_record, or_skip,
  collect_vllm,
}

module _ {ℓ} {F : Type ℓ} (zero_float : F) where
  -- No name stands twice.
  abbrev pub AreDistinct : List Bytes → Type 0
  AreDistinct [] = Unit
  AreDistinct (w ∷ warned) = (is_warned zero_float w warned ≡ false) × AreDistinct warned

  abbrev WarnsOnce : Build zero_float → Type 0
  WarnsOnce b = AreDistinct b.warned

  warn_unmatched_once-WarnsOnce :
      (name : Bytes) (b : Build zero_float)
      → WarnsOnce b
      → WarnsOnce (warn_unmatched_once zero_float name b)
  unfolding warn_unmatched_once
  warn_unmatched_once-WarnsOnce name b h = elim (Bool-cases (is_warned zero_float name b.warned)) [
    | inl e ↦ rw e h
    | inr e ↦ rw e (e, h)
  ]

  set_from-WarnsOnce :
      (name metric : Bytes) (o : Option (List (Metric F))) (b : Build zero_float)
      → WarnsOnce b
      → WarnsOnce (set_from zero_float name metric o b)
  set_from-WarnsOnce name metric none b h = warn_unmatched_once-WarnsOnce metric b h
  set_from-WarnsOnce name metric (some []) b h = warn_unmatched_once-WarnsOnce metric b h
  set_from-WarnsOnce name metric (some (m ∷ ms)) b h = h

  fill_field-WarnsOnce :
      (families : Families F) (name : Bytes) (o : Option Bytes) (b : Build zero_float)
      → WarnsOnce b
      → WarnsOnce (fill_field zero_float families name o b)
  fill_field-WarnsOnce families name none b h = h
  fill_field-WarnsOnce families name (some metric) b h = elim (Bool-cases (bytes_eq metric [])) [
    | inl e ↦ rw e h
    | inr e ↦ rw e (set_from-WarnsOnce name metric (find metric families) b h)
  ]

  fill_fields-WarnsOnce :
      (metric_map : Assoc Bytes) (families : Families F) (names : List Bytes) (b : Build zero_float)
      → WarnsOnce b
      → WarnsOnce (fill_fields zero_float metric_map families names b)
  unfolding fill_fields
  fill_fields-WarnsOnce metric_map families [] b h = h
  fill_fields-WarnsOnce metric_map families (name ∷ names) b h =
      fill_fields-WarnsOnce metric_map families names
        (fill_field zero_float families name (find name metric_map) b)
        (fill_field-WarnsOnce families name (find name metric_map) b h)

  or_skip-AreDistinct :
      (metric_map : Assoc Bytes) (endpoint : Bytes) (r : Result ScrapeError (Families F))
      (warned : List Bytes) (later : List Bytes → List (Vllm F) × List Bytes)
      → AreDistinct warned
      → ((w : List Bytes) → AreDistinct w → AreDistinct (later w).1)
      → AreDistinct (or_skip zero_float metric_map endpoint r warned later).1
  unfolding build_record
  or_skip-AreDistinct metric_map endpoint (err e) warned later h rest = rest warned h
  or_skip-AreDistinct metric_map endpoint (ok families) warned later h rest =
      rest (build_record zero_float metric_map endpoint families warned).warned (
        fill_fields-WarnsOnce metric_map families vllm_fields
          (record {
            filled = record { endpoint = endpoint; fields = λ k. zero_float };
            warned = warned;
          })
          h)

  -- Over any endpoints, and so over any number of ticks, a metric that is missing is warned of once.
  pub collect_vllm-AreDistinct :
      (get : Bytes → Option (Option (ScrapeResponse F))) (metric_map : Assoc Bytes)
      (endpoints warned : List Bytes)
      → AreDistinct warned
      → AreDistinct (collect_vllm zero_float get metric_map endpoints warned).1
  unfolding collect_vllm
  collect_vllm-AreDistinct get metric_map [] warned h = h
  collect_vllm-AreDistinct get metric_map (endpoint ∷ endpoints) warned h =
      or_skip-AreDistinct metric_map endpoint (scrape_metrics zero_float get endpoint) warned
        (λ w. collect_vllm zero_float get metric_map endpoints w) h
        (λ w k. collect_vllm-AreDistinct get metric_map endpoints w k)
