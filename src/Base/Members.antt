-- ===== src/Base/Members.antt =====
-- Membership in the lists that the operations of `Base` build.
use Prim.{tt}
use Prim.Native.Nat.{ℕ, suc, ◌≤◌, ◌<◌}
use Prim.Native.String.{String}
use mathlib.Core.Path.{◌≡◌, refl}
use mathlib.Core.Logic.{◌⊎◌, ◌↔◌, inl, inr}
use mathlib.Core.Bool.{Bool, true, false}
use mathlib.Core.List.{List, [], ◌∷◌, ◌++◌, map}
use native.Mathlib.Omega.{arith}
use text.Mathlib.TextEquality.{eq_iff}
use eka_core.Base.Lists.{Member, All, any, filter, flat_map, length}
use eka_core.Base.Maps.{contains}
use eka_core.Base.Sort.{sort, mem-sort}
use eka_core.Base.Tests.{if◌then◌else◌, Bool-cases, ||_elim, not-both}

-- Membership and the Boolean test.
pub contains_iff : (xs : List String) (k : String) → (contains xs k ≡ true) ↔ Member k xs
unfolding contains
contains_iff [] k = (λ h. absurd (cc), λ m. absurd m)
contains_iff (x ∷ xs) k = ground (arith, contains_iff xs k, eq_iff x k)

pub Member-append :
    {A : Type 0} (k : A) (xs ys : List A) → Member k (xs ++ ys) ↔ (Member k xs ⊎ Member k ys)
Member-append k [] ys = (inr, λ h. elim h [ inl m ↦ absurd m | inr m ↦ m ])
Member-append k (x ∷ xs) ys = ground (arith, Member-append k xs ys)

pub Member-filter :
    {A : Type 0} (test : A → Bool) (k : A) (xs : List A)
    → Member k (filter test xs) ↔ (Member k xs × (test k ≡ true))
unfolding filter
Member-filter test k [] = (λ m. absurd m, λ m. m.0)
Member-filter test k (x ∷ xs) = elim (Bool-cases (test x)) [
  | inl t ↦ rw t (
    λ m. elim m [
      | inl e ↦ (inl e, rw e t)
      | inr rest ↦ let (m', t') = (Member-filter test k xs).0 rest in (inr m', t')
    ],
    λ (m, t'). elim m [ inl e ↦ inl e | inr rest ↦ inr ((Member-filter test k xs).1 (rest, t')) ],
  )
  | inr f ↦ rw f (
    λ m. let (m', t') = (Member-filter test k xs).0 m in (inr m', t'),
    λ (m, t'). elim m [
      | inl e ↦ not-both (rw e at t') f
      | inr rest ↦ (Member-filter test k xs).1 (rest, t')
    ],
  )
]

pub length-filter :
    {A : Type 0} (test : A → Bool) (xs : List A) → length (filter test xs) ≤ length xs
unfolding filter
length-filter test [] = omega arith
length-filter test (x ∷ xs) = ground (arith, length-filter test xs)

pub append-eq-nil : {A : Type 0} (xs ys : List A) → xs ++ ys ≡ [] ↔ ((xs ≡ []) × (ys ≡ []))
append-eq-nil [] ys = (λ e. (refl, e), λ (a, b). b)
append-eq-nil (x ∷ xs) ys = (λ e. absurd (cc), λ (a, b). absurd (cc))

pub flat_map-eq-nil :
    {A B : Type 0} (f : A → List B) (xs : List A)
    → flat_map f xs ≡ [] ↔ ((x : A) → Member x xs → f x ≡ [])
unfolding flat_map
flat_map-eq-nil f [] = (λ e x m. absurd m, λ all. refl)
flat_map-eq-nil f (x ∷ xs) = (
  λ e y m.
      let (here, later) = (append-eq-nil (f x) (flat_map f xs)).0 e in
      elim m [ inl same ↦ rw same here | inr there ↦ (flat_map-eq-nil f xs).0 later y there ],
  λ all.
      (append-eq-nil (f x) (flat_map f xs)).1
        (all x (inl refl), (flat_map-eq-nil f xs).1 (λ y m. all y (inr m))),
)

pub All-iff : {A : Type 0} (P : A → Type 0) (xs : List A) → All P xs ↔ ((x : A) → Member x xs → P x)
All-iff P [] = (λ a x m. absurd m, λ all. tt)
All-iff P (x ∷ xs) = (
  λ (here, later) y m. elim m [
    | inl same ↦ rw same here
    | inr there ↦ (All-iff P xs).0 later y there
  ],
  λ all. (all x (inl refl), (All-iff P xs).1 (λ y m. all y (inr m))),
)

-- A check of each item that finds nothing, where `P` says when it finds nothing.
pub flat_map-All :
    {A B : Type 0} (f : A → List B) (P : A → Type 0) (xs : List A)
    → ((x : A) → f x ≡ [] ↔ P x)
    → flat_map f xs ≡ [] ↔ All P xs
flat_map-All f P xs exact = (
  λ e. (All-iff P xs).1 (λ x m. (exact x).0 ((flat_map-eq-nil f xs).0 e x m)),
  λ all. (flat_map-eq-nil f xs).1 (λ x m. (exact x).1 ((All-iff P xs).0 all x m)),
)

pub All-sort :
    {A : Type 0} (below : A → A → Bool) (P : A → Type 0) (xs : List A)
    → All P (sort below xs) ↔ All P xs
All-sort below P xs = (
  λ all. (All-iff P xs).1 (λ x m. (All-iff P (sort below xs)).0 all x ((mem-sort below x xs).1 m)),
  λ all. (All-iff P (sort below xs)).1 (λ x m. (All-iff P xs).0 all x ((mem-sort below x xs).0 m)),
)

pub mem-any :
    {A : Type 0} (test : A → Bool) (xs : List A)
    → any test xs ≡ true
    → (x : A) × Member x xs × (test x ≡ true)
unfolding any
mem-any test [] h = absurd (cc)
mem-any test (x ∷ xs) h = elim (||_elim (test x) (any test xs) h) [
  | inl here ↦ (x, inl refl, here)
  | inr rest ↦ let (y, m, t) = mem-any test xs rest in (y, inr m, t)
]

pub mem-map :
    {A B : Type 0} (f : A → B) (xs : List A) (y : B)
    → Member y (map f xs)
    → (x : A) × Member x xs × (y ≡ f x)
mem-map f [] y m = absurd m
mem-map f (x ∷ xs) y m = elim m [
  | inl here ↦ (x, inl refl, here)
  | inr rest ↦ let (z, n, e) = mem-map f xs y rest in (z, inr n, e)
]

-- How many items of `universe` are not in `seen`.
pub unseen : List String → List String → ℕ
unseen seen [] = 0
unseen seen (x ∷ xs) = let rest = unseen seen xs in if contains seen x then rest else suc rest

pub unseen-le : (k : String) (seen xs : List String) → unseen (k ∷ seen) xs ≤ unseen seen xs
unfolding unseen contains
unseen-le k seen [] = omega arith
unseen-le k seen (x ∷ xs) = ground (arith, unseen-le k seen xs)

pub unseen-lt :
    (k : String) (seen xs : List String)
    → contains seen k ≡ false
    → Member k xs
    → unseen (k ∷ seen) xs < unseen seen xs
unfolding unseen contains
unseen-lt k seen [] new m = absurd m
unseen-lt k seen (x ∷ xs) new m =
    ground (arith, eq_iff k x, unseen-le k seen xs, unseen-lt k seen xs)

pub unseen_start : (xs : List String) → unseen [] xs ≡ length xs
unfolding unseen contains
unseen_start [] = omega arith
unseen_start (x ∷ xs) = omega (arith, unseen_start xs)
