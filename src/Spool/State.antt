-- ===== src/Spool/State.antt =====
-- The spool in memory, and the outcomes of the system calls.
use memaudit.Base.{
  ℕ, ◌+◌, Bool, [], ◌∷◌, ◌++◌, Bytes, Result, ok, err, Option, none, some, length, take,
  if◌then◌else◌,
}
use memaudit.Spool.Disk.{Disk}

-- The fields of `Spool`; `handle_open` says whether `active` is an open file.
pub record Spool : Type 0 where
  pub rotate_bytes : ℕ
  pub rotate_age : ℕ
  pub max_bytes : ℕ
  pub site : Bytes
  pub host : Bytes
  pub handle_open : Bool
  pub active_size : ℕ
  pub active_start : ℕ
  pub disk : Disk

-- `out_of_rounds` belongs to the model: the argument of `enforce_cap` lists too few rounds.
pub data SpoolError : Type 0 where
  handle_closed sync_failed close_failed read_failed create_failed compress_failed rename_failed :
      SpoolError
  reopen_failed marshal_failed write_failed list_failed stat_failed remove_failed out_of_rounds :
      SpoolError

abbrev pub Outcome : Type 0
Outcome = Spool × Result SpoolError (Unit {0})

-- A write to the active file: all bytes, or some bytes and an error.
pub data Append : Type 0 where
  all_bytes : Append
  failed_after : ℕ → Append

unfoldable pub append : Append → Bytes → Spool → Outcome
append a b s =
    if s.handle_open
    then elim a [
      | all_bytes ↦ (
        record s {
          active_size = s.active_size + length b;
          disk = record s.disk { active = s.disk.active ++ b };
        },
        ok tt,
      )
      | failed_after n ↦ (
        record s { disk = record s.disk { active = s.disk.active ++ take n b } },
        err write_failed,
      )
    ]
    else (s, err handle_closed)

-- A line, or the encoder's error.
unfoldable pub append_encoded : Append → Option Bytes → Spool → Outcome
append_encoded a none s = (s, err marshal_failed)
append_encoded a (some b) s = append a (b ++ 10 ∷ []) s
