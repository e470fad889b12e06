-- ===== src/Base/Maps.antt =====
-- A Go map keyed by texts, as an association list: the first row of a key counts.
use Prim.Native.String.{String}
use mathlib.Core.Bool.{Bool, true, false}
use mathlib.Core.Option.{Option, none, some}
use mathlib.Core.List.{List, [], ◌∷◌}
use eka_core.Base.Tests.{◌==◌, if◌then◌else◌}

module _ {ℓ} {V : Type ℓ} where
  unfoldable pub lookup : String → List (String × V) → Option V
  lookup key [] = none
  lookup key (row ∷ rows) =
      let later = lookup key rows in if row.0 == key then some row.1 else later

  -- The row keeps its place; a new key goes last.
  unfoldable pub insert : String → V → List (String × V) → List (String × V)
  insert key value [] = (key, value) ∷ []
  insert key value (row ∷ rows) =
      let later = row ∷ insert key value rows in if row.0 == key then (key, value) ∷ rows else later

abbrev pub is_some {ℓ} : {A : Type ℓ} → Option A → Bool
is_some none = false
is_some (some a) = true

-- Membership in a Go `map[string]bool` that is written as a list of its keys.
unfoldable pub contains : List String → String → Bool
contains [] k = false
contains (x ∷ xs) k = if x == k then true else contains xs k
