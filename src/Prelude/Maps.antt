-- ===== src/Prelude/Maps.antt =====
-- Go maps with string keys, as functions from the key to the value that is stored, if any.
use Prim.Native.String.{String}
use mathlib.Core.Bool.{Bool, false, ◌||◌}
use mathlib.Core.List.{List, [], ◌∷◌}
use mathlib.Core.Option.{Option, none, some}
use text.Mathlib.Text.{◌==◌}
use icingadb.Prelude.Tests.{if◌then◌else◌}

-- A text is in a list.
abbrev pub contains : String → List String → Bool
contains i [] = false
contains i (x ∷ xs) = (x == i) || contains i xs

abbrev pub StringMap {ℓ} : Type ℓ → Type ℓ
StringMap V = String → Option V

module _ {ℓ} {V : Type ℓ} where
  -- `map[string]V{}`
  abbrev pub empty_map : StringMap V
  empty_map k = none

  -- `m[k] = v`
  abbrev pub insert : String → V → StringMap V → StringMap V
  insert k v m j = if k == j then some v else m j

  -- `delete(m, k)`
  abbrev pub delete : String → StringMap V → StringMap V
  delete k m j = if k == j then none else m j
