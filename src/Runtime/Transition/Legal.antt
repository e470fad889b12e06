-- ===== src/Runtime/Transition/Legal.antt =====
-- A transition that succeeds, against the rule that the validator applies to a change log.
use eka_core.Base.{
  String, ◌≡◌, refl, sym, ap, ◌∙◌, inl, inr, Bool, true, ◌&&◌, List, [], ◌∷◌, ◌==◌, if◌then◌else◌,
  filter, List-cases, ◌>>=◌, >>=-eq-ok, eq_of_ok-eq-ok, if-eq-ok, if_err-eq-ok, if_else_err-eq-ok,
  ok, err,
}
use eka_core.Conformance.State.{
  domain_content_state, domain_execution_state, domain_planning_state, domain_container_state,
  domain_values, index_of, before, is_legal_execution_transition, is_legal_transition,
}
use eka_core.Conformance.Reference.{Reference, reference_line}
use eka_core.Exchange.{AuthorIdentity, KnowledgeUnit}
use eka_core.Runtime.Container.{
  other_active_containers, activation_gate, lock_plan_puts, activation_result, activate_container,
  is_pending, complete_container, container_destination, is_container_step,
  transition_container_state,
}
use eka_core.Store.Put.{put_units}
use eka_core.Runtime.Gates.{container_work_items}
use eka_core.Store.Rows.{Store}
use eka_core.Runtime.World.{
  TransitionRequest, TransitionResult, World, store_env, from_store, not_in_table, forward_only,
  plan_lock,
}
use eka_core.Runtime.Publish.{transitioned, publish, plain_result, publish_state_transition}
use eka_core.Runtime.Publish.Outcome.{publish_state_transition-eq-ok}
use eka_core.Runtime.PlanState.{plan_destination, retirement_gate, transition_plan_state}
use eka_core.Runtime.ContentState.{content_destination, transition_content_state}
use eka_core.Runtime.ContentState.Next.{content_step}
use eka_core.Runtime.Transition.{
  work_item_destination, note_gate, membership_gate, transition_work_item,
}
use eka_core.Runtime.Transition.Steps.{
  execution_step, approval_step, retirement_step, container_step,
}

abbrev pub IsLegalStep : String → Reference → String → TransitionResult → Type 0
IsLegalStep domain ref from result =
    (result.from ≡ from) × (is_legal_transition domain ref.ty from result.to ≡ true)

activation_result-steps :
    (target from to : String) (by : AuthorIdentity) (plan : String) (hashes : List String)
    → ((activation_result target from to by plan hashes).from ≡ from)
      × ((activation_result target from to by plan hashes).to ≡ to)
unfolding activation_result
activation_result-steps target from to by plan [] = (refl, refl)
activation_result-steps target from to by plan (h ∷ []) = (refl, refl)
activation_result-steps target from to by plan (h ∷ locked ∷ hs) = (refl, refl)

module _ (w : World) (s : Store) (project source_repo : String) (ref : Reference)
    (current : KnowledgeUnit) (from : String) (req : TransitionRequest) (by : AuthorIdentity)
    (after : Store) (result : TransitionResult) where
  published_step :
      (domain to : String)
      → publish_state_transition w s project source_repo current from to domain by
        ≡ ok (after, result)
      → is_legal_transition domain ref.ty from to ≡ true
      → IsLegalStep domain ref from result
  published_step domain to e h =
      let (same_from, same_to, published) =
        publish_state_transition-eq-ok w s project source_repo current from to domain by after
          result e in
      (same_from, rw same_to h)

  pub content_state_step :
      transition_content_state w s project source_repo ref current from req by ≡ ok (after, result)
      → IsLegalStep domain_content_state ref from result
  unfolding transition_content_state
  content_state_step e =
      let (to, dest, rest) =
        >>=-eq-ok (content_destination (domain_values domain_content_state ref.ty) req from) _ e in
      let (next, checked) = if_else_err-eq-ok _ _ _ rest in
      let (replaced, published) = if_err-eq-ok _ _ _ checked in
      published_step domain_content_state to published (content_step ref.ty from to next)

  pub plan_state_step :
      transition_plan_state w s project source_repo ref current from req by ≡ ok (after, result)
      → IsLegalStep domain_planning_state ref from result
  unfolding transition_plan_state retirement_gate
  plan_state_step e =
      let (to, dest, rest) = >>=-eq-ok (plan_destination req from) _ e in
      let publication =
        publish_state_transition w s project source_repo current from to domain_planning_state by in
      let retirement =
        retirement_gate w s project (reference_line ref) >>= λ (free : Bool). publication in
      let approval =
        if from == "draft" && to == "approved" then publication else err (not_in_table from to) in
      let (no_lock, steps) =
        if_err-eq-ok (from == "approved" && to == "immutable") plan_lock
          (if from == "immutable" && to == "superseded" then retirement else approval) rest in
      elim (if-eq-ok (from == "immutable" && to == "superseded") retirement approval steps) [
        | inl (retires, gated) ↦
            let (free, passed, published) =
              >>=-eq-ok (retirement_gate w s project (reference_line ref)) _ gated in
            published_step domain_planning_state to published
              (retirement_step ref.ty from to retires)
        | inr (stays, table) ↦
            let (approves, published) = if_else_err-eq-ok _ _ _ table in
            published_step domain_planning_state to published
              (approval_step ref.ty from to approves)
      ]

  activation_from :
      (to : String)
      → activate_container w s project source_repo ref current from to by ≡ ok (after, result)
      → (result.from ≡ from) × (result.to ≡ to)
  unfolding activate_container activation_result
  activation_from to e =
      let (others, read, rest) = >>=-eq-ok (other_active_containers w s project ref) _ e in
      let (free, passed, locking) =
        >>=-eq-ok (activation_gate w s source_repo current others) _ rest in
      let ((own, locks, plan), batch, stored) =
        >>=-eq-ok
          (lock_plan_puts w s project source_repo
            (transitioned w.today domain_container_state from "active" by current) by)
          _ locking in
      let ((t, hashes), put, answer) =
        >>=-eq-ok (from_store (put_units (store_env w) (own ∷ locks) s)) _ stored in
      let same =
        eq_of_ok-eq-ok (t, activation_result (reference_line ref) from to by plan hashes)
          (after, result) answer in
      let (a, b) = activation_result-steps (reference_line ref) from to by plan hashes in
      (sym (ap (λ p. p.1.from) same) ∙ a, sym (ap (λ p. p.1.to) same) ∙ b)

  completion_from :
      (to : String)
      → complete_container w s project source_repo ref current from to by ≡ ok (after, result)
      → (result.from ≡ from) × (result.to ≡ to)
  unfolding complete_container
  completion_from to e =
      elim (List-cases (filter is_pending (container_work_items w s project ref))) [
        | inl clear ↦
            let (a, b, published) =
              publish_state_transition-eq-ok w s project source_repo current from to
                domain_container_state by after result (rw (clear, complete_container) at e) in
            (a, b)
        | inr (u, us, pending) ↦ absurd (cc (rw (pending, complete_container) at e))
      ]

  step_taken :
      (to : String)
      → (if from == "planned"
          then activate_container w s project source_repo ref current from to by
          else complete_container w s project source_repo ref current from to by)
        ≡ ok (after, result)
      → (result.from ≡ from) × (result.to ≡ to)
  step_taken to taken = elim (if-eq-ok (from == "planned") _ _ taken) [
    | inl (p, activated) ↦ activation_from to activated
    | inr (p, completed) ↦ completion_from to completed
  ]

  pub container_state_step :
      transition_container_state w s project source_repo ref current from req by
        ≡ ok (after, result)
      → IsLegalStep domain_container_state ref from result
  unfolding transition_container_state
  container_state_step e =
      let (to, dest, rest) = >>=-eq-ok (container_destination req from) _ e in
      let activation = activate_container w s project source_repo ref current from to by in
      let completion = complete_container w s project source_repo ref current from to by in
      let values = domain_values domain_container_state "ctr" in
      elim (if-eq-ok (is_container_step from to)
        (if from == "planned" then activation else completion)
        (if before (index_of values from) (index_of values to)
          then err (not_in_table from to)
          else err forward_only)
        rest) [
          | inr (off, refused) ↦
              let (ahead, bad) =
                if_err-eq-ok (before (index_of values from) (index_of values to))
                  (not_in_table from to) (err forward_only) refused in
              absurd (cc)
          | inl (on, taken) ↦
              let (a, b) = step_taken to taken in (a, rw b (container_step ref.ty from to on))
        ]

  pub work_item_step :
      transition_work_item w s project source_repo ref current from req by ≡ ok (after, result)
      → IsLegalStep domain_execution_state ref from result
  unfolding transition_work_item
  work_item_step e =
      let (to, dest, rest) = >>=-eq-ok (work_item_destination req from) _ e in
      let (allowed, gated) = if_else_err-eq-ok (is_legal_execution_transition from to) _ _ rest in
      let (clear, notes, member) = >>=-eq-ok (note_gate w s project ref to) _ gated in
      let (warning, confirmed, put) = >>=-eq-ok (membership_gate w s project ref req) _ member in
      let ((t, hash), published, answer) =
        >>=-eq-ok
          (publish w s project source_repo
            (transitioned w.today domain_execution_state from to by current))
          _ put in
      let same =
        eq_of_ok-eq-ok (t, plain_result (reference_line ref) from to by hash warning)
          (after, result) answer in
      (
        sym (ap (λ p. p.1.from) same),
        rw (sym (ap (λ p. p.1.to) same)) (execution_step ref.ty from to allowed),
      )
