-- ===== src/Runtime/Transition/Success.antt =====
-- What a transition that succeeds has read and decided.
use eka_core.Base.{
  String, ◌≡◌, refl, inl, inr, true, false, ◌==◌, Bool-cases, Option-cases, eq_of_==, >>=-eq-ok,
  if-eq-ok, ok,
}
use eka_core.Conformance.State.{domain_content_state, domain_execution_state, is_legal_transition}
use eka_core.Conformance.Reference.{Reference}
use eka_core.Exchange.{AuthorIdentity, KnowledgeUnit}
use eka_core.Store.Rows.{Store}
use eka_core.Runtime.World.{TransitionRequest, TransitionResult, World}
use eka_core.Runtime.ContentState.{owns_content_state}
use eka_core.Runtime.Transition.{
  authority, transition_target, state_domain, current_unit, transition_branch, transition,
}
use eka_core.Runtime.Transition.Legal.{
  IsLegalStep, content_state_step, plan_state_step, container_state_step, work_item_step,
}

-- What `Transition` knows of its target where it succeeds.
abbrev pub LegalIn :
    World → Store → TransitionRequest → Reference → KnowledgeUnit → TransitionResult → Type 0
LegalIn w s req ref current result =
    (transition_target w req ≡ ok ref)
    × (current_unit w s ref ≡ ok (current, result.from))
    × (is_legal_transition (state_domain ref.ty) ref.ty result.from result.to ≡ true)

execution_domain :
    (ty : String)
    → (ty == "plan") ≡ false
    → (ty == "ctr") ≡ false
    → (state_domain ty == domain_content_state) ≡ false
    → state_domain ty ≡ domain_execution_state
unfolding state_domain
execution_domain ty a b c = elim (Bool-cases (owns_content_state ty)) [
  | inl owns ↦ absurd (cc (rw (a, b, owns, state_domain) at c))
  | inr free ↦ rw (a, b, free, state_domain) refl
]

module _ (w : World) (s : Store) (project source_repo : String) (ref : Reference)
    (current : KnowledgeUnit) (from : String) (req : TransitionRequest) (by : AuthorIdentity)
    (after : Store) (result : TransitionResult) where
  branch_step :
      transition_branch w s project source_repo ref current from req by ≡ ok (after, result)
      → IsLegalStep (state_domain ref.ty) ref from result
  unfolding transition_branch state_domain
  branch_step e = elim (if-eq-ok (ref.ty == "plan") _ _ e) [
    | inl (p, done) ↦
        let (a, b) =
          plan_state_step w s project source_repo ref current from req by after result done in
        (a, rw (p, state_domain) b)
    | inr (p, e1) ↦ elim (if-eq-ok (ref.ty == "ctr") _ _ e1) [
      | inl (c, done) ↦
          let (a, b) =
            container_state_step w s project source_repo ref current from req by after result
              done in
          (a, rw (p, c, state_domain) b)
      | inr (c, e2) ↦ elim (if-eq-ok (state_domain ref.ty == domain_content_state) _ _ e2) [
        | inl (k, done) ↦
            let (a, b) =
              content_state_step w s project source_repo ref current from req by after result
                done in
            (a, rw (eq_of_== (state_domain ref.ty) _ k) b)
        | inr (k, done) ↦
            let (a, b) =
              work_item_step w s project source_repo ref current from req by after result done in
            (a, rw (execution_domain ref.ty p c k) b)
      ]
    ]
  ]

-- A transition that succeeds starts at the state that the current unit of the target carries in the
-- target's state domain, and its step is one that the change-log rule of the validator accepts in
-- that domain, whichever branch of the code it took.
pub transition-IsLegal :
    (w : World) (s : Store) (req : TransitionRequest) (after : Store) (result : TransitionResult)
    → transition w s req ≡ ok (after, result)
    → (ref : Reference) × (current : KnowledgeUnit) × LegalIn w s req ref current result
unfolding transition
transition-IsLegal w s req after result e =
    let (by, named, rest) = >>=-eq-ok (authority req) _ e in
    let (ref, targeted, inside) = >>=-eq-ok (transition_target w req) _ rest in
    elim (Option-cases w.repo) [
      | inl lost ↦ absurd (cc (rw lost at inside))
      | inr (repo, registered) ↦
          let ((current, from), read, branch) =
            >>=-eq-ok (current_unit w s ref) _ (rw registered at inside) in
          let (a, b) =
            branch_step w s repo.project repo.name ref current from req by after result branch in
          (ref, current, (targeted, rw a read, rw a b))
    ]
