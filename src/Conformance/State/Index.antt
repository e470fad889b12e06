-- ===== src/Conformance/State/Index.antt =====
-- Positions in a value set.
use eka_core.Base.{
  ℕ, zero, suc, String, ◌≡◌, refl, ap, ◌∙◌, inl, inr, Bool, true, false, Option, none, some, List,
  [], ◌∷◌, arith, ◌==◌, Bool-cases, eq_of_==, get_elem?, is_some, contains,
}
use eka_core.Conformance.State.{index_of, lacks}

pub get_elem?-index_of :
    (xs : List String) (v : String) (i : ℕ) → index_of xs v ≡ some i → get_elem? xs i ≡ some v
unfolding index_of
get_elem?-index_of [] v i h = cc
get_elem?-index_of (x ∷ xs) v zero h = elim (Bool-cases (x == v)) [
  | inl e ↦ ap some (eq_of_== x v e)
  | inr e ↦ absurd (ground arith)
]
get_elem?-index_of (x ∷ xs) v (suc i) h = elim (Bool-cases (x == v)) [
  | inl e ↦ absurd (ground arith)
  | inr e ↦ get_elem?-index_of xs v i (ground arith)
]

contains-index_of : (xs : List String) (v : String) → contains xs v ≡ is_some (index_of xs v)
unfolding contains index_of
contains-index_of [] v = refl
contains-index_of (x ∷ xs) v = elim (Bool-cases (x == v)) [
  | inl e ↦ rw e refl
  | inr e ↦ ground (arith, contains-index_of xs v)
]

lacks-none :
    (o : Option ℕ)
    → elim o as (λ x. Bool) [ none ↦ true | some i ↦ false ] ≡ false
    → is_some o ≡ true
lacks-none none h = absurd (cc)
lacks-none (some i) h = refl

-- A value that the set does not lack is in it.
pub contains-lacks : (xs : List String) (v : String) → lacks xs v ≡ false → contains xs v ≡ true
unfolding lacks
contains-lacks xs v h = contains-index_of xs v ∙ lacks-none (index_of xs v) h
