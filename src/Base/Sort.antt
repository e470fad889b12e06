-- ===== src/Base/Sort.antt =====
-- `sort.Slice`, as insertion sort: what the program relies on is that the result is a sorted
-- rearrangement. `below a b` is the `less` of the call.
use Prim.Native.String
use Prim.Native.String.{String}
use Prim.Native.Nat.{Ordering}
use mathlib.Core.Path.{◌≡◌, refl}
use mathlib.Core.Logic.{◌⊎◌, ◌↔◌, inl}
use mathlib.Core.Bool.{Bool, true, false}
use mathlib.Core.List.{List, [], ◌∷◌}
use native.Mathlib.Omega.{arith}
use eka_core.Base.Tests.{if◌then◌else◌}
use eka_core.Base.Lists.{Member}

-- Go's `<` on texts: by bytes, which orders code points.
abbrev pub text_below : String → String → Bool
text_below s t = elim (String.compare s t) [ Ordering.lt ↦ true | _ ↦ false ]

module _ {A : Type 0} (below : A → A → Bool) where
  pub insert_sorted : A → List A → List A
  insert_sorted a [] = a ∷ []
  insert_sorted a (x ∷ xs) = if below a x then a ∷ x ∷ xs else x ∷ insert_sorted a xs

  unfoldable pub sort : List A → List A
  unfolding insert_sorted
  sort [] = []
  sort (x ∷ xs) = insert_sorted x (sort xs)

  mem-insert_sorted :
      (a b : A) (xs : List A) → Member b (insert_sorted a xs) ↔ ((b ≡ a) ⊎ Member b xs)
  unfolding insert_sorted
  mem-insert_sorted a b [] = ground arith
  mem-insert_sorted a b (x ∷ xs) = ground (arith, mem-insert_sorted a b xs)

  -- Sorting keeps the items.
  pub mem-sort : (b : A) (xs : List A) → Member b (sort xs) ↔ Member b xs
  unfolding sort
  mem-sort b [] = ground arith
  mem-sort b (x ∷ xs) = ground (arith, mem-insert_sorted x b (sort xs), mem-sort b xs)

  pub sort-eq-nil : (xs : List A) → sort xs ≡ [] ↔ (xs ≡ [])
  unfolding sort
  sort-eq-nil [] = (λ e. refl, λ e. refl)
  sort-eq-nil (x ∷ xs) =
      (λ e. absurd (rw e at ((mem-sort x (x ∷ xs)).1 (inl refl))), λ e. absurd (cc))

  -- `sort.SliceStable`: an item stays before those that are not below it.
  pub insert_stable : A → List A → List A
  insert_stable a [] = a ∷ []
  insert_stable a (x ∷ xs) = if below x a then x ∷ insert_stable a xs else a ∷ x ∷ xs

  unfoldable pub stable_sort : List A → List A
  unfolding insert_stable
  stable_sort [] = []
  stable_sort (x ∷ xs) = insert_stable x (stable_sort xs)

  mem-insert_stable :
      (a b : A) (xs : List A) → Member b (insert_stable a xs) ↔ ((b ≡ a) ⊎ Member b xs)
  unfolding insert_stable
  mem-insert_stable a b [] = ground arith
  mem-insert_stable a b (x ∷ xs) = ground (arith, mem-insert_stable a b xs)

  pub mem-stable_sort : (b : A) (xs : List A) → Member b (stable_sort xs) ↔ Member b xs
  unfolding stable_sort
  mem-stable_sort b [] = ground arith
  mem-stable_sort b (x ∷ xs) =
      ground (arith, mem-insert_stable x b (stable_sort xs), mem-stable_sort b xs)
