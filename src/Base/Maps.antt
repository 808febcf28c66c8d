-- ===== src/Base/Maps.antt =====
-- Maps as association lists of which the first entry of a key counts.
use mathlib.Core.List.{List, [], ◌∷◌}
use mathlib.Core.Option.{Option, none, some}
use memaudit.Base.Core.{if◌then◌else◌}
use memaudit.Base.Text.{Bytes, bytes_eq}

abbrev pub Assoc {ℓ} : Type ℓ → Type ℓ
Assoc A = List (Bytes × A)

unfoldable pub find {ℓ} : {A : Type ℓ} → Bytes → Assoc A → Option A
find k [] = none
find k ((l, a) ∷ m) = let later = find k m in if bytes_eq k l then some a else later
