-- ===== src/Tests/Containers.antt =====
-- Runs of a container's activation and completion, and of the plan closure.
use eka_core.Base.{
  String, ◌≡◌, refl, ◌≢◌, ◌↔◌, ◌⊎◌, inl, true, false, some, List, [], ◌∷◌, any, filter, Member,
  lookup, insert, contains, Result, ok, err, trim_space, cut, cut_last, itoa, sort,
}
use eka_core.Conformance.State.{
  type_tokens, domain_values, index_of, before, is_legal_execution_transition, lacks, owned_domains,
  is_known_type, is_versioned_type, is_work_item_type, number_group,
}
use eka_core.Conformance.Reference.{Reference, all_digits, parse_reference, reference_line}
use eka_core.Exchange.{AuthorIdentity, is_author_kind, KnowledgeUnit, line_of, canonical_form}
use eka_core.Store.Rows.{
  Store, find_payload, find_ref, insert_payload, upsert_ref, same_number, has_duplicate_number,
  max_number, payload_not_found,
}
use eka_core.Store.Put.{
  hash_unit, ancestor_walk, is_ancestor, new_row, move_ref, put_unit_tx, put_unit, put_units,
}
use eka_core.Store.Query.{
  decode_unit, unit, decode_rows, units_by_query, units_by_project, units_by_line, refs_by_project,
}
use eka_core.Runtime.World.{TransitionResult, Failure, out_of_fuel}
use eka_core.Runtime.Units.{
  newer, latest_from, latest, by_line_from, by_line, of_type, target_of, same_line,
}
use eka_core.Runtime.Gates.{
  names_line, discusses_target, note_role_of, note_of_unit, collect_gate_notes,
  is_resolved_implementation, is_unresolved, gate_violations, membership_step, ticket_membership,
  active_lines, registers, registered_in_active_container, container_work_items,
}
use eka_core.Runtime.Plan.{resolve_depends_on_plan, plan_line}
use eka_core.Runtime.Closure.{
  identity_namespace, identity_type, identity_id, is_dependency, dependencies, successors, explore,
  closure_fuel, plan_closure,
}
use eka_core.Runtime.Publish.{with_state, transitioned, ref_of, publish, publish_state_transition}
use eka_core.Runtime.Container.{
  ActiveContainer, replaces, add_row, other_active_containers, disjoint_from, activation_gate,
  lock_put, lock_plan_puts, activation_result, activate_container, is_pending, complete_container,
}
use eka_core.Runtime.ContentState.{owns_content_state}
use eka_core.Runtime.Transition.{
  transition_step, authority, is_transitionable, transition_target, state_domain, state_in,
  current_unit, work_item_destination, note_gate, membership_gate, transition_work_item,
  transition_branch, transition,
}
use eka_core.Tests.Data.{
  running, waiting, finished, test_codec, test_store, finished_store, broken_store, test_world,
  after_of, result_of,
}
use eka_core.Runtime.Closure.Reach.{Reaches, plan_closure_iff}
use eka_core.Runtime.Closure.Fuel.{plan_closure_ends}
use eka_core.Runtime.Container.Activation.{AreDisjoint, activation_excludes, activation_needs_plan}
use eka_core.Runtime.Container.Completion.{completion_needs_done, completion_of_unreadable}

abbrev ctr_ref : String → Reference
ctr_ref id = record { namespace = "acme"; ty = "ctr"; id = id; version = 0; has_version = false }

abbrev ann : AuthorIdentity
ann = record { kind = "user"; name = "ann" }

abbrev activation : Result Failure (Store × TransitionResult)
activation =
    activate_container (test_world "r2") test_store "p" "r2" (ctr_ref "c2") waiting "planned"
      "active" ann

abbrev running_entry : ActiveContainer
running_entry = record {
  line = "acme/ctr:c1";
  source_repo = "r1";
  current = record running { digest = "running" };
}

activation_succeeds : activation ≡ ok (after_of activation, result_of activation)
unfolding trim_space parse_reference all_digits is_known_type is_versioned_type type_tokens itoa
    line_of reference_line canonical_form is_author_kind index_of before lacks domain_values
    owned_domains is_work_item_type number_group is_legal_execution_transition find_payload find_ref
    insert_payload upsert_ref same_number has_duplicate_number max_number hash_unit ancestor_walk
    is_ancestor new_row move_ref put_unit_tx put_unit put_units decode_unit unit decode_rows
    units_by_query units_by_project units_by_line refs_by_project sort newer latest_from latest
    by_line_from by_line of_type target_of same_line names_line discusses_target note_role_of
    note_of_unit collect_gate_notes is_resolved_implementation is_unresolved gate_violations
    membership_step ticket_membership active_lines registers registered_in_active_container
    container_work_items resolve_depends_on_plan plan_line with_state transitioned ref_of publish
    publish_state_transition transition_step authority is_transitionable transition_target
    state_domain owns_content_state state_in current_unit work_item_destination note_gate
    membership_gate transition_work_item transition_branch transition cut cut_last filter insert
    identity_namespace identity_type identity_id is_dependency dependencies successors explore
    closure_fuel plan_closure replaces add_row other_active_containers disjoint_from activation_gate
    lock_put lock_plan_puts activation_result activate_container is_pending complete_container
    contains any lookup
activation_succeeds = refl

others_found :
    other_active_containers (test_world "r2") test_store "p" (ctr_ref "c2")
    ≡ ok (running_entry ∷ [])
unfolding trim_space parse_reference all_digits is_known_type is_versioned_type type_tokens itoa
    line_of reference_line canonical_form is_author_kind index_of before lacks domain_values
    owned_domains is_work_item_type number_group is_legal_execution_transition find_payload find_ref
    insert_payload upsert_ref same_number has_duplicate_number max_number hash_unit ancestor_walk
    is_ancestor new_row move_ref put_unit_tx put_unit put_units decode_unit unit decode_rows
    units_by_query units_by_project units_by_line refs_by_project sort newer latest_from latest
    by_line_from by_line of_type target_of same_line names_line discusses_target note_role_of
    note_of_unit collect_gate_notes is_resolved_implementation is_unresolved gate_violations
    membership_step ticket_membership active_lines registers registered_in_active_container
    container_work_items resolve_depends_on_plan plan_line with_state transitioned ref_of publish
    publish_state_transition transition_step authority is_transitionable transition_target
    state_domain owns_content_state state_in current_unit work_item_destination note_gate
    membership_gate transition_work_item transition_branch transition cut cut_last filter insert
    identity_namespace identity_type identity_id is_dependency dependencies successors explore
    closure_fuel plan_closure replaces add_row other_active_containers disjoint_from activation_gate
    lock_put lock_plan_puts activation_result activate_container is_pending complete_container
    contains any lookup
others_found = refl

activation_excludes_example :
    (running_entry.source_repo ≢ "r2")
    × AreDisjoint (test_world "r2") test_store waiting running_entry.current
activation_excludes_example =
    activation_excludes (test_world "r2") test_store "p" "r2" (ctr_ref "c2") waiting "planned"
      "active" ann (after_of activation) (result_of activation) (running_entry ∷ []) running_entry
      activation_succeeds others_found (inl refl)

activation_needs_plan_example :
    (plan_ref : Reference) × (found : List KnowledgeUnit) × (plan : KnowledgeUnit)
    × (resolve_depends_on_plan
          (transitioned "2026-02-01" "container-state" "planned" "active" ann waiting)
        ≡ ok plan_ref)
    × (units_by_line test_codec test_store plan_ref.namespace plan_ref.ty plan_ref.id ≡ ok found)
    × (latest found ≡ some plan)
    × ((plan.state_vector.planning_state ≡ "approved")
        ⊎ (plan.state_vector.planning_state ≡ "immutable"))
activation_needs_plan_example =
    activation_needs_plan (test_world "r2") test_store "p" "r2" (ctr_ref "c2") waiting "planned"
      "active" ann (after_of activation) (result_of activation) activation_succeeds

closure_found :
    plan_closure (test_world "r2") test_store waiting ≡ ok ("acme/dec:d1" ∷ "acme/plan:p2" ∷ [])
unfolding trim_space parse_reference all_digits is_known_type is_versioned_type type_tokens itoa
    line_of reference_line canonical_form is_author_kind index_of before lacks domain_values
    owned_domains is_work_item_type number_group is_legal_execution_transition find_payload find_ref
    insert_payload upsert_ref same_number has_duplicate_number max_number hash_unit ancestor_walk
    is_ancestor new_row move_ref put_unit_tx put_unit put_units decode_unit unit decode_rows
    units_by_query units_by_project units_by_line refs_by_project sort newer latest_from latest
    by_line_from by_line of_type target_of same_line names_line discusses_target note_role_of
    note_of_unit collect_gate_notes is_resolved_implementation is_unresolved gate_violations
    membership_step ticket_membership active_lines registers registered_in_active_container
    container_work_items resolve_depends_on_plan plan_line with_state transitioned ref_of publish
    publish_state_transition transition_step authority is_transitionable transition_target
    state_domain owns_content_state state_in current_unit work_item_destination note_gate
    membership_gate transition_work_item transition_branch transition cut cut_last filter insert
    identity_namespace identity_type identity_id is_dependency dependencies successors explore
    closure_fuel plan_closure replaces add_row other_active_containers disjoint_from activation_gate
    lock_put lock_plan_puts activation_result activate_container is_pending complete_container
    contains any lookup
closure_found = refl

plan_closure_iff_example :
    (plan : Reference) × (resolve_depends_on_plan waiting ≡ ok plan)
    × ((y : String)
        → (contains ("acme/dec:d1" ∷ "acme/plan:p2" ∷ []) y ≡ true)
          ↔ Reaches (successors (test_world "r2") test_store) (plan_line plan) y)
plan_closure_iff_example =
    plan_closure_iff (test_world "r2") test_store waiting ("acme/dec:d1" ∷ "acme/plan:p2" ∷ [])
      closure_found

plan_closure_ends_example : plan_closure (test_world "r2") test_store waiting ≢ err out_of_fuel
plan_closure_ends_example = plan_closure_ends (test_world "r2") test_store waiting

abbrev completion_in : Store → Result Failure (Store × TransitionResult)
completion_in s =
    complete_container (test_world "r1") s "p" "r1" (ctr_ref "c1") running "active" "completed" ann

abbrev completion : Result Failure (Store × TransitionResult)
completion = completion_in finished_store

abbrev finished_item : KnowledgeUnit
finished_item = record finished { digest = "finished" }

completion_succeeds : completion ≡ ok (after_of completion, result_of completion)
unfolding trim_space parse_reference all_digits is_known_type is_versioned_type type_tokens itoa
    line_of reference_line canonical_form is_author_kind index_of before lacks domain_values
    owned_domains is_work_item_type number_group is_legal_execution_transition find_payload find_ref
    insert_payload upsert_ref same_number has_duplicate_number max_number hash_unit ancestor_walk
    is_ancestor new_row move_ref put_unit_tx put_unit put_units decode_unit unit decode_rows
    units_by_query units_by_project units_by_line refs_by_project sort newer latest_from latest
    by_line_from by_line of_type target_of same_line names_line discusses_target note_role_of
    note_of_unit collect_gate_notes is_resolved_implementation is_unresolved gate_violations
    membership_step ticket_membership active_lines registers registered_in_active_container
    container_work_items resolve_depends_on_plan plan_line with_state transitioned ref_of publish
    publish_state_transition transition_step authority is_transitionable transition_target
    state_domain owns_content_state state_in current_unit work_item_destination note_gate
    membership_gate transition_work_item transition_branch transition cut cut_last filter insert
    identity_namespace identity_type identity_id is_dependency dependencies successors explore
    closure_fuel plan_closure replaces add_row other_active_containers disjoint_from activation_gate
    lock_put lock_plan_puts activation_result activate_container is_pending complete_container
    contains any lookup
completion_succeeds = refl

item_found :
    Member finished_item (container_work_items (test_world "r1") finished_store "p" (ctr_ref "c1"))
unfolding trim_space parse_reference all_digits is_known_type is_versioned_type type_tokens itoa
    line_of reference_line canonical_form is_author_kind index_of before lacks domain_values
    owned_domains is_work_item_type number_group is_legal_execution_transition find_payload find_ref
    insert_payload upsert_ref same_number has_duplicate_number max_number hash_unit ancestor_walk
    is_ancestor new_row move_ref put_unit_tx put_unit put_units decode_unit unit decode_rows
    units_by_query units_by_project units_by_line refs_by_project sort newer latest_from latest
    by_line_from by_line of_type target_of same_line names_line discusses_target note_role_of
    note_of_unit collect_gate_notes is_resolved_implementation is_unresolved gate_violations
    membership_step ticket_membership active_lines registers registered_in_active_container
    container_work_items resolve_depends_on_plan plan_line with_state transitioned ref_of publish
    publish_state_transition transition_step authority is_transitionable transition_target
    state_domain owns_content_state state_in current_unit work_item_destination note_gate
    membership_gate transition_work_item transition_branch transition cut cut_last filter insert
    identity_namespace identity_type identity_id is_dependency dependencies successors explore
    closure_fuel plan_closure replaces add_row other_active_containers disjoint_from activation_gate
    lock_put lock_plan_puts activation_result activate_container is_pending complete_container
    contains any lookup
item_found = inl refl

completion_needs_done_example :
    (finished_item.state_vector.execution_state ≡ "done")
    ⊎ (finished_item.state_vector.execution_state ≡ "canceled")
completion_needs_done_example =
    completion_needs_done (test_world "r1") finished_store "p" "r1" (ctr_ref "c1") running "active"
      "completed" ann (after_of completion) (result_of completion) finished_item completion_succeeds
      item_found

project_unreadable :
    units_by_project test_codec broken_store "p" ≡ err (payload_not_found "finished")
unfolding trim_space parse_reference all_digits is_known_type is_versioned_type type_tokens itoa
    line_of reference_line canonical_form is_author_kind index_of before lacks domain_values
    owned_domains is_work_item_type number_group is_legal_execution_transition find_payload find_ref
    insert_payload upsert_ref same_number has_duplicate_number max_number hash_unit ancestor_walk
    is_ancestor new_row move_ref put_unit_tx put_unit put_units decode_unit unit decode_rows
    units_by_query units_by_project units_by_line refs_by_project sort newer latest_from latest
    by_line_from by_line of_type target_of same_line names_line discusses_target note_role_of
    note_of_unit collect_gate_notes is_resolved_implementation is_unresolved gate_violations
    membership_step ticket_membership active_lines registers registered_in_active_container
    container_work_items resolve_depends_on_plan plan_line with_state transitioned ref_of publish
    publish_state_transition transition_step authority is_transitionable transition_target
    state_domain owns_content_state state_in current_unit work_item_destination note_gate
    membership_gate transition_work_item transition_branch transition cut cut_last filter insert
    identity_namespace identity_type identity_id is_dependency dependencies successors explore
    closure_fuel plan_closure replaces add_row other_active_containers disjoint_from activation_gate
    lock_put lock_plan_puts activation_result activate_container is_pending complete_container
    contains any lookup
project_unreadable = refl

completion_of_unreadable_example :
    completion_in broken_store
    ≡ publish_state_transition
        (test_world "r1")
        broken_store
        "p"
        "r1"
        running
        "active"
        "completed"
        "container-state"
        ann
completion_of_unreadable_example =
    completion_of_unreadable (test_world "r1") broken_store "p" "r1" (ctr_ref "c1") running "active"
      "completed" ann (payload_not_found "finished") project_unreadable
