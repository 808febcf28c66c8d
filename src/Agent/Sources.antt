-- ===== src/Agent/Sources.antt =====
-- internal/agent/sources.go: the sources, and the envelopes of what their collectors return. `R` stands
-- for the type of a record and `marshal` for its JSON text; both are arguments, as they are of the
-- generic functions `single`, `multi` and `envelopes`.
pub mod Envelopes
use memaudit.Base.{
  ℕ, zero, suc, ◌≡◌, Bool, true, false, not, ◌&&◌, ◌||◌, List, [], ◌∷◌, ◌++◌, map, Bytes, bytes_eq,
  codes, Option, none, some, Result, ok, err, ◌>>=◌, length, ltb, if◌then◌else◌,
}
use memaudit.Model.{Envelope}
use memaudit.Config.{CollectorsConfig}

pub data SourceError : Type 0 where
  collect_failed marshal_failed : SourceError

-- What one call of a collector returns: at most one record, or any number.
pub data Reading {ℓ} (R : Type ℓ) : Type ℓ where
  one : Result SourceError (Option R) → Reading R
  many : Result SourceError (List R) → Reading R

abbrev pub tier_fast : ℕ
tier_fast = 1

abbrev pub tier_medium : ℕ
tier_medium = 2

abbrev pub tier_slow : ℕ
tier_slow = 4

-- A source without its collector, which is an argument where it is called. `closes` says whether the
-- source has a `close`.
pub record Source : Type 0 where
  pub typ : Bytes
  pub tier : ℕ
  pub closes : Bool

abbrev pub source_of : Bytes → ℕ → Source
source_of typ tier = record { typ = typ; tier = tier; closes = false }

module _ {ℓ} {R : Type ℓ} (marshal : R → Option Bytes) (site host : Bytes) where
  abbrev pub envelope : Bytes → ℕ → Bytes → Envelope
  envelope typ ts b = record {
    ts = ts;
    site = site;
    host = host;
    typ = typ;
    schema = 1;
    payload = b;
  }

  abbrev pub add_envelope :
      Bytes
      → ℕ
      → Option Bytes
      → Result SourceError (List Envelope)
      → Result SourceError (List Envelope)
  add_envelope typ ts none rest = err marshal_failed
  add_envelope typ ts (some b) rest = rest >>= λ out. ok (envelope typ ts b ∷ out)

  unfoldable pub envelopes : Bytes → ℕ → List R → Result SourceError (List Envelope)
  envelopes typ ts [] = ok []
  envelopes typ ts (rec ∷ recs) = add_envelope typ ts (marshal rec) (envelopes typ ts recs)

  abbrev pub single : Bytes → ℕ → Option R → Result SourceError (List Envelope)
  single typ ts none = ok []
  single typ ts (some rec) = envelopes typ ts (rec ∷ [])

  -- The `collect` of a source, made by `single` or `multi`.
  unfoldable pub collect : Source → ℕ → Reading R → Result SourceError (List Envelope)
  collect src ts (one r) = r >>= λ rec. single src.typ ts rec
  collect src ts (many r) = r >>= λ recs. envelopes src.typ ts recs

-- The sources that are always registered.
abbrev pub base_sources : List Source
base_sources =
    source_of (codes "host_mem") tier_fast
    ∷ source_of (codes "vmstat") tier_fast
    ∷ source_of (codes "psi") tier_fast
    ∷ source_of (codes "numa_mem") tier_medium
    ∷ source_of (codes "hugepages") tier_slow
    ∷ []

abbrev pub optional : Bool → Source → List Source
optional true src = src ∷ []
optional false src = []

abbrev pub gpu_enabled : Bytes → Bool
gpu_enabled enabled = bytes_eq enabled (codes "auto") || bytes_eq enabled (codes "true")

abbrev pub damon_hist_source : Source
damon_hist_source = record { typ = codes "damon_hist"; tier = tier_slow; closes = true }

-- `buildSources`; the Boolean says whether `damonSource` finds DAMON usable.
unfoldable pub build_sources : CollectorsConfig → Bool → List Source
build_sources cfg damon_usable =
    base_sources
    ++ (optional cfg.cgroup.enabled (source_of (codes "cgroup_mem") tier_medium)
        ++ (optional (cfg.damon.enabled && damon_usable) damon_hist_source
            ++ (optional (gpu_enabled cfg.nvml.enabled) (source_of (codes "gpu_mem") tier_fast)
                ++ optional (ltb 0 (length cfg.vllm.endpoints))
                    (source_of (codes "vllm") tier_fast))))
