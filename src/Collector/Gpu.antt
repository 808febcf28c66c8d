-- ===== src/Collector/Gpu.antt =====
-- internal/collector/gpu.go: the records of the graphics cards, from what two calls of nvidia-smi print.
pub mod Processes
use memaudit.Base.{
  ℕ, suc, ◌-◌, ◌^◌, ◌+◌, Bool, true, false, ◌==◌, List, [], ◌∷◌, ◌++◌, map, Option, none, some,
  Bytes, bytes_eq, codes, trim_space, split_on, Result, ok, err, ◌>>=◌, parse_uint, max_uint64, ltb,
  Assoc, find, if◌then◌else◌,
}
use memaudit.Model.{GpuMem, GpuProcess}

pub data GpuError : Type 0 where
  query_failed : GpuError
  wrong_fields : Bytes → GpuError

-- The lines that are not blank.
unfoldable pub not_blank : List Bytes → List Bytes
not_blank [] = []
not_blank (line ∷ lines) =
    let rest = not_blank lines in if bytes_eq (trim_space line) [] then rest else line ∷ rest

abbrev pub csv_lines : Bytes → List Bytes
csv_lines data_ = not_blank (split_on 10 data_)

abbrev pub csv_fields : Bytes → List Bytes
csv_fields line = map (λ (f : Bytes). trim_space f) (split_on b',' line)

-- A field that is no number counts as zero.
unfoldable pub csv_uint : Bytes → ℕ
csv_uint s = elim (parse_uint 10 max_uint64 s) [ ok n ↦ n | err e ↦ 0 ]

unfoldable pub csv_uint32 : Bytes → ℕ
csv_uint32 s = let n = csv_uint s in if ltb (2 ^ 32 - 1) n then 0 else n

unfoldable pub csv_int : Bytes → ℕ
csv_int s = let n = csv_uint s in if ltb (2 ^ 63 - 1) n then 0 else n

-- A record from exactly nine fields.
abbrev pub device_of : Bytes → List Bytes → Result GpuError GpuMem
device_of line (a ∷ b ∷ c ∷ d ∷ e ∷ f ∷ g ∷ h ∷ i ∷ []) = ok (record {
  index = csv_int a;
  uuid = b;
  name = c;
  mem_total = csv_uint d;
  mem_used = csv_uint e;
  mem_free = csv_uint f;
  util_gpu = csv_uint32 g;
  util_memory = csv_uint32 h;
  mig = bytes_eq i (codes "Enabled");
  processes = [];
})
device_of line [] = err (wrong_fields line)
device_of line (a ∷ []) = err (wrong_fields line)
device_of line (a ∷ b ∷ []) = err (wrong_fields line)
device_of line (a ∷ b ∷ c ∷ []) = err (wrong_fields line)
device_of line (a ∷ b ∷ c ∷ d ∷ []) = err (wrong_fields line)
device_of line (a ∷ b ∷ c ∷ d ∷ e ∷ []) = err (wrong_fields line)
device_of line (a ∷ b ∷ c ∷ d ∷ e ∷ f ∷ []) = err (wrong_fields line)
device_of line (a ∷ b ∷ c ∷ d ∷ e ∷ f ∷ g ∷ []) = err (wrong_fields line)
device_of line (a ∷ b ∷ c ∷ d ∷ e ∷ f ∷ g ∷ h ∷ []) = err (wrong_fields line)
device_of line (a ∷ b ∷ c ∷ d ∷ e ∷ f ∷ g ∷ h ∷ i ∷ j ∷ rest) = err (wrong_fields line)

unfoldable pub parse_devices : List Bytes → Result GpuError (List GpuMem)
parse_devices [] = ok []
parse_devices (line ∷ lines) = do
  device ← device_of line (csv_fields line)
  devices ← parse_devices lines
  ok (device ∷ devices)

unfoldable pub parse_gpu_query_csv : Bytes → Result GpuError (List GpuMem)
parse_gpu_query_csv data_ = parse_devices (csv_lines data_)

-- The owner and the process of a line of exactly three fields.
abbrev pub process_of : Bytes → List Bytes → Result GpuError (Bytes × GpuProcess)
process_of line (uuid ∷ pid ∷ used ∷ []) =
    ok (uuid, record { pid = csv_uint32 pid; used_memory = csv_uint used })
process_of line [] = err (wrong_fields line)
process_of line (a ∷ []) = err (wrong_fields line)
process_of line (a ∷ b ∷ []) = err (wrong_fields line)
process_of line (a ∷ b ∷ c ∷ d ∷ rest) = err (wrong_fields line)

abbrev pub or_nil {ℓ} : {A : Type ℓ} → Option (List A) → List A
or_nil none = []
or_nil (some procs) = procs

-- `out[uuid]` of a map of lists.
abbrev pub listed_for {ℓ} : {A : Type ℓ} → Bytes → Assoc (List A) → List A
listed_for uuid out = or_nil (find uuid out)

-- `out[uuid] = append(out[uuid], p)`.
abbrev pub append_to {ℓ} : {A : Type ℓ} → Bytes → A → Assoc (List A) → Assoc (List A)
append_to uuid p out = (uuid, listed_for uuid out ++ p ∷ []) ∷ out

unfoldable pub parse_processes :
    List Bytes → Assoc (List GpuProcess) → Result GpuError (Assoc (List GpuProcess))
parse_processes [] out = ok out
parse_processes (line ∷ lines) out = do
  (uuid, p) ← process_of line (csv_fields line)
  parse_processes lines (append_to uuid p out)

unfoldable pub parse_compute_apps_csv : Bytes → Result GpuError (Assoc (List GpuProcess))
parse_compute_apps_csv data_ = parse_processes (csv_lines data_) []

abbrev pub with_processes : Assoc (List GpuProcess) → GpuMem → GpuMem
with_processes by_uuid device = record device { processes = listed_for device.uuid by_uuid }

abbrev pub printed : Option Bytes → Result GpuError Bytes
printed none = err query_failed
printed (some text) = ok text

-- `Collect`: whether nvidia-smi is on the path, and what its two calls print, if they succeed.
unfoldable pub collect_gpu : Bool → Option Bytes → Option Bytes → Result GpuError (List GpuMem)
collect_gpu on_path gpu_out procs_out =
    let collected = printed gpu_out >>= λ gpus.
    (parse_gpu_query_csv gpus >>= λ devices.
    (printed procs_out >>= λ procs.
    (parse_compute_apps_csv procs >>= λ by_uuid.
    ok (map (λ (d : GpuMem). with_processes by_uuid d) devices)))) in
    if on_path then collected else ok []
