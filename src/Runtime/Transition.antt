-- ===== src/Runtime/Transition.antt =====
-- runtime/transition.go: `Transition`. An error carries no store: the write that fails is rolled
-- back, and nothing else writes.
pub mod Progress
pub mod Retired
pub mod WorkItem
pub mod Success
pub mod Legal
pub mod Steps
use eka_core.Base.{
  String, Bool, true, not, ◌&&◌, ◌||◌, none, some, ◌==◌, if◌then◌else◌, Result, ◌>>=◌, ok, err, ◌⊕◌,
  trim_space,
}
use eka_core.Conformance.State.{
  domain_content_state, domain_execution_state, domain_planning_state, domain_container_state,
  is_legal_execution_transition, is_work_item_type,
}
use eka_core.Conformance.Reference.{Reference, parse_reference, reference_line}
use eka_core.Exchange.{AuthorIdentity, kind_user, is_author_kind, StateVector, KnowledgeUnit}
use eka_core.Store.Rows.{Store}
use eka_core.Store.Query.{units_by_line}
use eka_core.Runtime.World.{
  TransitionRequest, TransitionResult, World, Failure, from_store, authority_required,
  unknown_author_kind, both_to_and_direction, both_directions, not_a_repository, invalid_target,
  published_form, not_transitionable, other_namespace, not_registered, not_in_store, no_state,
  no_forward_step, no_backward_step, not_in_table, gate, unconfirmed,
}
use eka_core.Runtime.Units.{latest}
use eka_core.Runtime.Gates.{collect_gate_notes, gate_violations, registered_in_active_container}
use eka_core.Runtime.Publish.{transitioned, publish, plain_result}
use eka_core.Runtime.Container.{transition_container_state}
use eka_core.Runtime.PlanState.{transition_plan_state}
use eka_core.Runtime.ContentState.{owns_content_state, transition_content_state}

-- The forward or backward step; "" is none.
unfoldable pub transition_step : String → Bool → String
transition_step from forward =
    if forward
    then if from == "planned"
      then "todo"
      else if from == "todo"
      then "in-progress"
      else if from == "in-progress"
      then "in-review"
      else if from == "in-review"
      then "done"
      else if from == "canceled"
      then "todo"
      else ""
    else if from == "in-review"
    then "in-progress"
    else if from == "in-progress"
    then "todo"
    else ""

-- The authority, with the default kind, after the checks of the request's own fields.
unfoldable pub authority : TransitionRequest → Result Failure AuthorIdentity
authority req =
    let kind = if req.by_kind == "" then kind_user else req.by_kind in
    if trim_space req.by == ""
    then err authority_required
    else if not (is_author_kind kind)
    then err (unknown_author_kind req.by_kind)
    else if not (req.to == "") && (req.forward || req.backward)
    then err both_to_and_direction
    else if req.forward && req.backward
    then err both_directions
    else ok (record { kind = kind; name = req.by })

unfoldable pub is_transitionable : String → Bool
is_transitionable ty =
    is_work_item_type ty || (ty == "plan" || (ty == "ctr" || owns_content_state ty))

-- The target line, in the namespace of eka.yaml.
unfoldable pub transition_target : World → TransitionRequest → Result Failure Reference
transition_target w req = elim w.meta_namespace [
  | none ↦ err not_a_repository
  | some ns ↦ elim (parse_reference req.target "" "") [
    | err e ↦ err (invalid_target e)
    | ok r ↦
        if r.has_version
        then err published_form
        else if not (is_transitionable r.ty)
        then err (not_transitionable req.target)
        else if not (r.namespace == "") && not (r.namespace == ns)
        then err (other_namespace r.namespace)
        else ok (if r.namespace == "" then record r { namespace = ns } else r)
  ]
]

unfoldable pub state_domain : String → String
state_domain ty =
    if ty == "plan"
    then domain_planning_state
    else if ty == "ctr"
    then domain_container_state
    else if owns_content_state ty
    then domain_content_state
    else domain_execution_state

unfoldable pub state_in : String → StateVector → String
state_in domain v =
    if domain == domain_execution_state
    then v.execution_state
    else if domain == domain_planning_state
    then v.planning_state
    else if domain == domain_container_state
    then v.container_state
    else if domain == domain_content_state
    then v.content_state
    else ""

-- The current unit of the target and its state.
unfoldable pub current_unit : World → Store → Reference → Result Failure (KnowledgeUnit × String)
current_unit w s ref = from_store (units_by_line w.codec s ref.namespace ref.ty ref.id) >>= λ line.
    elim (latest line) [
      | none ↦ err (not_in_store (reference_line ref))
      | some u ↦
          let from = state_in (state_domain ref.ty) u.state_vector in
          if from == ""
          then err (no_state (reference_line ref) (state_domain ref.ty))
          else ok (u, from)
    ]

unfoldable pub work_item_destination : TransitionRequest → String → Result Failure String
work_item_destination req from =
    let step = transition_step from req.forward in
    if req.forward || req.backward
    then if step == ""
      then err (if req.backward then no_backward_step from else no_forward_step from)
      else ok step
    else ok req.to

-- The R13 gates over the notes of the target.
unfoldable pub note_gate : World → Store → String → Reference → String → Result Failure Bool
note_gate w s project ref to = collect_gate_notes w s project ref >>= λ notes.
    elim (gate_violations notes to) [ none ↦ ok true | some v ↦ err (gate v) ]

-- The warning of an item that no active container registers; a refusal unless it is confirmed.
unfoldable pub membership_gate :
    World → Store → String → Reference → TransitionRequest → Result Failure String
membership_gate w s project ref req =
    if registered_in_active_container w s project ref
    then ok ""
    else if req.confirmed
    then ok (
        reference_line ref
        ⊕ (" is not registered in the current active container "
            ⊕ "(no ticket deriving from an active ctr- references it)"))
    else err (unconfirmed (reference_line ref))

unfoldable pub transition_work_item :
    World
    → Store
    → String
    → String
    → Reference
    → KnowledgeUnit
    → String
    → TransitionRequest
    → AuthorIdentity
    → Result Failure (Store × TransitionResult)
transition_work_item w s project source_repo ref current from req by =
    work_item_destination req from >>= λ to.
    if is_legal_execution_transition from to
    then (note_gate w s project ref to >>= λ clear.
        membership_gate w s project ref req >>= λ warning.
        publish w s project source_repo
          (transitioned w.today domain_execution_state from to by current)
        >>= λ (after, hash). ok (after, plain_result (reference_line ref) from to by hash warning))
    else err (not_in_table from to)

-- The branches, by the type of the target.
unfoldable pub transition_branch :
    World
    → Store
    → String
    → String
    → Reference
    → KnowledgeUnit
    → String
    → TransitionRequest
    → AuthorIdentity
    → Result Failure (Store × TransitionResult)
transition_branch w s project source_repo ref current from req by =
    if ref.ty == "plan"
    then transition_plan_state w s project source_repo ref current from req by
    else if ref.ty == "ctr"
    then transition_container_state w s project source_repo ref current from req by
    else if state_domain ref.ty == domain_content_state
    then transition_content_state w s project source_repo ref current from req by
    else transition_work_item w s project source_repo ref current from req by

unfoldable pub transition :
    World → Store → TransitionRequest → Result Failure (Store × TransitionResult)
transition w s req = authority req >>= λ by. transition_target w req >>= λ ref. elim w.repo [
  | none ↦ err not_registered
  | some repo ↦ current_unit w s ref >>= λ (current, from).
      transition_branch w s repo.project repo.name ref current from req by
]
