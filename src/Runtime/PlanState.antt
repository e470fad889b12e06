-- ===== src/Runtime/PlanState.antt =====
-- runtime/transition.go: the planning-state branch.
use eka_core.Base.{
  String, Bool, true, ◌&&◌, ◌||◌, [], ◌∷◌, ◌==◌, if◌then◌else◌, Result, ◌>>=◌, ok, err,
}
use eka_core.Conformance.State.{domain_planning_state}
use eka_core.Conformance.Reference.{Reference, reference_line}
use eka_core.Exchange.{AuthorIdentity, KnowledgeUnit}
use eka_core.Store.Rows.{Store}
use eka_core.Runtime.World.{
  TransitionRequest, TransitionResult, World, Failure, no_forward_step, not_in_table, forward_only,
  plan_lock, plan_in_use,
}
use eka_core.Runtime.Plan.{active_containers_for_plan}
use eka_core.Runtime.Publish.{publish_state_transition}

unfoldable pub plan_destination : TransitionRequest → String → Result Failure String
plan_destination req from =
    if req.forward || req.backward
    then if req.backward
      then err forward_only
      else if from == "draft"
      then ok "approved"
      else if from == "approved"
      then err plan_lock
      else if from == "immutable"
      then ok "superseded"
      else err (no_forward_step from)
    else ok req.to

-- The gate of a retirement: no active container depends on the plan.
unfoldable pub retirement_gate : World → Store → String → String → Result Failure Bool
retirement_gate w s project line = active_containers_for_plan w s project line >>= λ offenders.
    elim offenders [ [] ↦ ok true | o ∷ os ↦ err (plan_in_use line (o ∷ os)) ]

unfoldable pub transition_plan_state :
    World
    → Store
    → String
    → String
    → Reference
    → KnowledgeUnit
    → String
    → TransitionRequest
    → AuthorIdentity
    → Result Failure (Store × TransitionResult)
transition_plan_state w s project source_repo ref current from req by =
    plan_destination req from >>= λ to.
    let published =
      publish_state_transition w s project source_repo current from to domain_planning_state by in
    if from == "approved" && to == "immutable"
    then err plan_lock
    else if from == "immutable" && to == "superseded"
    then (retirement_gate w s project (reference_line ref) >>= λ free. published)
    else if from == "draft" && to == "approved"
    then published
    else err (not_in_table from to)
