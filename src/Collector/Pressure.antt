-- ===== src/Collector/Pressure.antt =====
-- internal/collector/psi.go: the record of /proc/pressure/memory. What `procfs` reads is an argument, in
-- which a line that the file does not have is a nil pointer; to read a field of it panics.
use memaudit.Base.{ℕ, Bool, Option, none, some, Result, ok, err, if◌then◌else◌}
use memaudit.Model.{Psi}
use memaudit.Collector.Stat.{FileRead, content, absent, unreadable}

pub record PsiLine {ℓ} (F : Type ℓ) : Type ℓ where
  pub avg10 : F
  pub avg60 : F
  pub avg300 : F
  pub total : ℕ

pub record PsiStats {ℓ} (F : Type ℓ) : Type ℓ where
  pub some_line : Option (PsiLine F)
  pub full_line : Option (PsiLine F)

pub data PsiError : Type 0 where
  psi_stat_failed psi_unreadable panicked : PsiError

module _ {ℓ} {F : Type ℓ} where
  abbrev pub psi_of : PsiLine F → PsiLine F → Psi F
  psi_of s f = record {
    some_avg10 = s.avg10;
    some_avg60 = s.avg60;
    some_avg300 = s.avg300;
    some_total = s.total;
    full_avg10 = f.avg10;
    full_avg60 = f.avg60;
    full_avg300 = f.avg300;
    full_total = f.total;
  }

  abbrev pub psi_of_lines :
      Option (PsiLine F) → Option (PsiLine F) → Result PsiError (Option (Psi F))
  psi_of_lines (some s) (some f) = ok (some (psi_of s f))
  psi_of_lines none f = err panicked
  psi_of_lines (some s) none = err panicked

  abbrev pub psi_of_stats : Option (PsiStats F) → Result PsiError (Option (Psi F))
  psi_of_stats none = err psi_unreadable
  psi_of_stats (some stats) = psi_of_lines stats.some_line stats.full_line

  -- `Collect`: without the file there is no record. The `FileRead` is what `os.Stat` says of it.
  unfoldable pub collect_psi :
      FileRead → Bool → Option (PsiStats F) → Result PsiError (Option (Psi F))
  collect_psi absent root_ok stats = ok none
  collect_psi unreadable root_ok stats = err psi_stat_failed
  collect_psi (content b) root_ok stats = if root_ok then psi_of_stats stats else err psi_unreadable
