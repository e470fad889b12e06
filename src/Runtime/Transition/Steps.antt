-- ===== src/Runtime/Transition/Steps.antt =====
-- The destinations of --forward and --backward, and the steps of the four state domains.
use mathlib.Core.Path.{subst}
use eka_core.Base.{
  ℕ, suc, String, ◌≡◌, refl, sym, ◌≢◌, inl, inr, Bool, true, false, ◌&&◌, ◌||◌, some, List, arith,
  ◌==◌, Bool-cases, eq_of_==, &&_elim, ||_elim,
}
use eka_core.Conformance.State.{
  domain_execution_state, domain_planning_state, domain_container_state, execution_state_values,
  domain_values, index_of, before, is_legal_execution_transition, lacks, is_legal_transition,
}
use eka_core.Conformance.State.Execution.{
  D1, is_legal_execution_transition_iff, forward, pull_back, cancel, reactivate,
}
use eka_core.Runtime.Container.{is_container_step}
use eka_core.Runtime.Transition.{transition_step}

abbrev StepIsLegal : Bool → String → Type 0
StepIsLegal ahead from = is_legal_execution_transition from (transition_step from ahead) ≡ true

at_state :
    (ahead : Bool) (from v : String)
    → (from == v) ≡ true
    → StepIsLegal ahead v
    → StepIsLegal ahead from
at_state ahead from v e h = subst (StepIsLegal ahead) (sym (eq_of_== from v e)) h

-- A derived step of the work items, forward or backward, is always a step of the D1 table.
pub transition_step-IsLegal :
    (from : String) (ahead : Bool)
    → transition_step from ahead ≢ ""
    → is_legal_execution_transition from (transition_step from ahead) ≡ true
unfolding transition_step is_legal_execution_transition
transition_step-IsLegal from true h = elim (Bool-cases (from == "planned")) [
  | inl e ↦ at_state true from "planned" e refl
  | inr a ↦ elim (Bool-cases (from == "todo")) [
    | inl e ↦ at_state true from "todo" e refl
    | inr b ↦ elim (Bool-cases (from == "in-progress")) [
      | inl e ↦ at_state true from "in-progress" e refl
      | inr c ↦ elim (Bool-cases (from == "in-review")) [
        | inl e ↦ at_state true from "in-review" e refl
        | inr d ↦ elim (Bool-cases (from == "canceled")) [
          | inl e ↦ at_state true from "canceled" e refl
          | inr none_left ↦ absurd (h (rw (a, b, c, d, none_left) refl))
        ]
      ]
    ]
  ]
]
transition_step-IsLegal from false h = elim (Bool-cases (from == "in-review")) [
  | inl e ↦ at_state false from "in-review" e refl
  | inr a ↦ elim (Bool-cases (from == "in-progress")) [
    | inl e ↦ at_state false from "in-progress" e refl
    | inr none_left ↦ absurd (h (rw (a, none_left) refl))
  ]
]

lacks-eq-false :
    (values : List String) (v : String) (i : ℕ)
    → index_of values v ≡ some i
    → lacks values v ≡ false
unfolding lacks
lacks-eq-false values v i e = rw (e, lacks) refl

not_lacking :
    (a b : String)
    → lacks execution_state_values a ≡ false
    → lacks execution_state_values b ≡ false
    → (lacks execution_state_values a || lacks execution_state_values b) ≡ false
not_lacking a b p q = rw (p, q) refl

listed :
    (from to : String)
    → D1 from to
    → (lacks execution_state_values from || lacks execution_state_values to) ≡ false
unfolding lacks index_of
listed from to (forward i a b h) =
    not_lacking from to (lacks-eq-false execution_state_values from i a)
      (lacks-eq-false execution_state_values to (suc i) b)
listed from to (pull_back i a b g h) =
    not_lacking from to (lacks-eq-false execution_state_values from (suc i) a)
      (lacks-eq-false execution_state_values to i b)
listed from to (cancel i a h e) =
    not_lacking from to (lacks-eq-false execution_state_values from i a) (rw e refl)
listed from to (reactivate a b) = not_lacking from to (rw a refl) (rw b refl)

pub execution_step :
    (ty from to : String)
    → is_legal_execution_transition from to ≡ true
    → is_legal_transition domain_execution_state ty from to ≡ true
unfolding is_legal_transition domain_values
execution_step ty from to h =
    rw (listed from to ((is_legal_execution_transition_iff from to).0 h), h) (ground arith)

moves :
    (domain ty a b from to : String)
    → (from == a && to == b) ≡ true
    → is_legal_transition domain ty a b ≡ true
    → is_legal_transition domain ty from to ≡ true
moves domain ty a b from to e h =
    let (p, q) = &&_elim (from == a) (to == b) e in rw (eq_of_== from a p, eq_of_== to b q) h

module _ (ty from to : String) where
  pub approval_step :
      (from == "draft" && to == "approved") ≡ true
      → is_legal_transition domain_planning_state ty from to ≡ true
  unfolding is_legal_transition lacks index_of domain_values before
  approval_step e = moves domain_planning_state ty "draft" "approved" from to e refl

  pub retirement_step :
      (from == "immutable" && to == "superseded") ≡ true
      → is_legal_transition domain_planning_state ty from to ≡ true
  unfolding is_legal_transition lacks index_of domain_values before
  retirement_step e = moves domain_planning_state ty "immutable" "superseded" from to e refl

  pub container_step :
      is_container_step from to ≡ true
      → is_legal_transition domain_container_state ty from to ≡ true
  unfolding is_container_step is_legal_transition lacks index_of domain_values before
  container_step e =
      elim (||_elim (from == "planned" && to == "active") (from == "active" && to == "completed")
        e) [
          | inl activates ↦
              moves domain_container_state ty "planned" "active" from to activates refl
          | inr completes ↦
              moves domain_container_state ty "active" "completed" from to completes refl
        ]
