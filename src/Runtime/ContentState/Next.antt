-- ===== src/Runtime/ContentState/Next.antt =====
-- The steps of the content-state branch.
use eka_core.Base.{
  ℕ, suc, String, ◌≡◌, inl, inr, true, some, List, arith, eqb, Option-cases, eq_of_eqb,
}
use eka_core.Conformance.State.{
  domain_content_state, domain_values, index_of, before, lacks, is_legal_transition,
}
use eka_core.Runtime.ContentState.{is_next}

-- The next value of a list is one that the validator accepts.
pub is_next-before :
    (values : List String) (from to : String)
    → is_next values from to ≡ true
    → (i : ℕ) × (index_of values from ≡ some i) × (index_of values to ≡ some (suc i))
unfolding is_next
is_next-before values from to h = elim (Option-cases (index_of values from)) [
  | inl lost ↦ absurd (cc (rw (lost, is_next) at h))
  | inr (i, at_i) ↦ elim (Option-cases (index_of values to)) [
    | inl lost ↦ absurd (cc (rw (at_i, lost, is_next) at h))
    | inr (j, at_j) ↦
        let next : eqb j (suc i) ≡ true = rw (at_i, at_j, is_next) at h in
        (i, at_i, rw (eq_of_eqb j (suc i) next) at at_j)
  ]
]

pub content_step :
    (ty from to : String)
    → is_next (domain_values domain_content_state ty) from to ≡ true
    → is_legal_transition domain_content_state ty from to ≡ true
unfolding is_legal_transition lacks before
content_step ty from to h =
    let (i, at_i, at_j) = is_next-before (domain_values domain_content_state ty) from to h in
    rw (at_i, at_j, lacks, before) (ground arith)
