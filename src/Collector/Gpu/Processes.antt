-- ===== src/Collector/Gpu/Processes.antt =====
-- Whose processes a record lists.
use memaudit.Base.{
  ◌≡◌, inl, inr, refl, sym, ap, ◌∙◌, true, List, [], ◌∷◌, ◌++◌, append_assoc, append-nil, map, some,
  Bytes, bytes_eq, bytes_eq_sound, Result, ok, err, Result-cases, Bool-cases, Assoc, find, arith,
  if◌then◌else◌,
}
use memaudit.Model.{GpuMem, GpuProcess}
use memaudit.Collector.Gpu.{
  GpuError, csv_lines, csv_fields, process_of, or_nil, listed_for, append_to, parse_processes,
  parse_gpu_query_csv, parse_compute_apps_csv, with_processes, collect_gpu,
}

-- The processes of one card among the lines, in order.
abbrev pub if_owned : Bytes → Result GpuError (Bytes × GpuProcess) → List GpuProcess
if_owned uuid (err e) = []
if_owned uuid (ok (owner, p)) = if bytes_eq uuid owner then p ∷ [] else []

abbrev pub owned : Bytes → List Bytes → List GpuProcess
owned uuid [] = []
owned uuid (line ∷ lines) = if_owned uuid (process_of line (csv_fields line)) ++ owned uuid lines

find-first :
    (uuid owner : Bytes) (procs : List GpuProcess) (out : Assoc (List GpuProcess))
    → find uuid ((owner, procs) ∷ out) ≡ (if bytes_eq uuid owner then some procs else find uuid out)
unfolding find
find-first uuid owner procs out = refl

listed_for-append_to :
    (uuid owner : Bytes) (p : GpuProcess) (out : Assoc (List GpuProcess))
    → listed_for uuid (append_to owner p out)
      ≡ listed_for uuid out ++ (if bytes_eq uuid owner then p ∷ [] else [])
listed_for-append_to uuid owner p out = elim (Bool-cases (bytes_eq uuid owner)) [
  | inl e ↦
      ap or_nil (find-first uuid owner (listed_for owner out ++ p ∷ []) out)
      ∙ rw e (ap (λ (u : Bytes). listed_for u out ++ p ∷ []) (sym (bytes_eq_sound uuid owner e)))
  | inr e ↦
      ap or_nil (find-first uuid owner (listed_for owner out ++ p ∷ []) out)
      ∙ rw e (sym (append-nil (listed_for uuid out)))
]

parse_processes-owned :
    (uuid : Bytes) (lines : List Bytes) (out m : Assoc (List GpuProcess))
    → parse_processes lines out ≡ ok m
    → listed_for uuid m ≡ listed_for uuid out ++ owned uuid lines
unfolding parse_processes
parse_processes-owned uuid [] out m h =
    let same : out ≡ m = ground (arith, h) in
    ap (λ (x : Assoc (List GpuProcess)). listed_for uuid x) (sym same)
    ∙ sym (append-nil (listed_for uuid out))
parse_processes-owned uuid (line ∷ lines) out m h =
    elim (Result-cases (process_of line (csv_fields line))) [
      | inr (x, e) ↦ absurd (ground (arith, e, h))
      | inl ((owner, p), e) ↦ rw e (
          parse_processes-owned uuid lines (append_to owner p out) m (rw e at h)
          ∙ ap (λ (l : List GpuProcess). l ++ owned uuid lines)
              (listed_for-append_to uuid owner p out)
          ∙ append_assoc (listed_for uuid out) (if bytes_eq uuid owner then p ∷ [] else [])
              (owned uuid lines))
    ]

map-same :
    (f g : GpuMem → GpuMem)
    → ((d : GpuMem) → f d ≡ g d)
    → (devices : List GpuMem) → map f devices ≡ map g devices
map-same f g same [] = refl
map-same f g same (d ∷ devices) = rw (same d, map-same f g same devices) refl

-- Where `Collect` succeeds, its records are those of the devices, and each lists the processes of the
-- lines with its UUID, in their order.
pub collect_gpu-owned :
    (gpus procs : Bytes) (out : List GpuMem)
    → collect_gpu true (some gpus) (some procs) ≡ ok out
    → (devices : List GpuMem) × (parse_gpu_query_csv gpus ≡ ok devices)
      × (out
          ≡ map (λ (d : GpuMem). record d { processes = owned d.uuid (csv_lines procs) }) devices)
unfolding collect_gpu parse_compute_apps_csv find
collect_gpu-owned gpus procs out h = elim (Result-cases (parse_gpu_query_csv gpus)) [
  | inr (x, e) ↦ absurd (ground (arith, e, h))
  | inl (devices, e) ↦ elim (Result-cases (parse_processes (csv_lines procs) [])) [
    | inr (x, f) ↦ absurd (ground (arith, e, f, h))
    | inl (by_uuid, f) ↦
        let same : out ≡ map (λ (d : GpuMem). with_processes by_uuid d) devices =
          ground (arith, e, f, h) in
        (
          devices,
          e,
          same
              ∙ map-same _ _
                  (λ d.
                    ap (λ (l : List GpuProcess). record d { processes = l })
                      (parse_processes-owned d.uuid (csv_lines procs) [] by_uuid f))
                  devices,
        )
  ]
]
