-- ===== src/Tests/Runs.antt =====
-- Runs of the transition of a work item.
use eka_core.Base.{
  String, ◌≡◌, refl, ◌≢◌, inl, true, false, List, [], ◌∷◌, any, filter, Member, lookup, insert,
  contains, Result, ok, trim_space, cut, cut_last, itoa, sort,
}
use eka_core.Conformance.State.{
  type_tokens, domain_values, index_of, before, is_legal_execution_transition, lacks, owned_domains,
  is_known_type, is_versioned_type, is_work_item_type, number_group,
}
use eka_core.Conformance.Reference.{Reference, all_digits, parse_reference, reference_line}
use eka_core.Exchange.{AuthorIdentity, is_author_kind, KnowledgeUnit, line_of, canonical_form}
use eka_core.Store.Rows.{
  Store, find_payload, find_ref, insert_payload, upsert_ref, same_number, has_duplicate_number,
  max_number,
}
use eka_core.Store.Put.{
  hash_unit, ancestor_walk, is_ancestor, new_row, move_ref, put_unit_tx, put_unit, put_units,
}
use eka_core.Store.Query.{
  decode_unit, unit, decode_rows, units_by_query, units_by_project, units_by_line, refs_by_project,
}
use eka_core.Runtime.World.{TransitionRequest, TransitionResult, Failure}
use eka_core.Runtime.Units.{
  newer, latest_from, latest, by_line_from, by_line, of_type, target_of, same_line,
}
use eka_core.Runtime.Gates.{
  GateNote, names_line, discusses_target, note_role_of, note_of_unit, collect_gate_notes,
  is_resolved_implementation, is_unresolved, gate_violations, membership_step, ticket_membership,
  active_lines, registers, registered_in_active_container, container_work_items,
}
use eka_core.Runtime.Plan.{resolve_depends_on_plan, plan_line}
use eka_core.Runtime.Closure.{
  identity_namespace, identity_type, identity_id, is_dependency, dependencies, successors, explore,
  closure_fuel, plan_closure,
}
use eka_core.Runtime.Gates.Registered.{IsRegistered}
use eka_core.Runtime.Publish.{with_state, transitioned, ref_of, publish, publish_state_transition}
use eka_core.Runtime.Container.{
  replaces, add_row, other_active_containers, disjoint_from, activation_gate, lock_put,
  lock_plan_puts, activation_result, activate_container, is_pending, complete_container,
}
use eka_core.Runtime.ContentState.{owns_content_state}
use eka_core.Runtime.Transition.{
  transition_step, authority, is_transitionable, transition_target, state_domain, state_in,
  current_unit, work_item_destination, note_gate, membership_gate, transition_work_item,
  transition_branch, transition,
}
use eka_core.Tests.Data.{test_codec, item, test_store, test_world, request, after_of, result_of}
use eka_core.Runtime.Transition.Success.{LegalIn, transition-IsLegal}
use eka_core.Runtime.Transition.Steps.{transition_step-IsLegal}
use eka_core.Runtime.Transition.WorkItem.{
  review_needs_note, done_needs_notes, unconfirmed_needs_container,
}

abbrev done_request : TransitionRequest
done_request = request "sto:login" "done"

abbrev done_run : Result Failure (Store × TransitionResult)
done_run = transition (test_world "r1") test_store done_request

done_run_succeeds : done_run ≡ ok (after_of done_run, result_of done_run)
unfolding trim_space parse_reference all_digits is_known_type is_versioned_type type_tokens itoa
    line_of reference_line canonical_form is_author_kind index_of before lacks domain_values
    owned_domains is_work_item_type number_group is_legal_execution_transition find_payload find_ref
    insert_payload upsert_ref same_number has_duplicate_number max_number hash_unit ancestor_walk
    is_ancestor new_row move_ref put_unit_tx put_unit put_units decode_unit unit decode_rows
    units_by_query units_by_project units_by_line refs_by_project sort newer latest_from latest
    by_line_from by_line of_type target_of same_line names_line discusses_target note_role_of
    note_of_unit collect_gate_notes is_resolved_implementation is_unresolved gate_violations
    membership_step ticket_membership active_lines registers registered_in_active_container
    container_work_items resolve_depends_on_plan plan_line with_state transitioned ref_of publish
    publish_state_transition transition_step authority is_transitionable transition_target
    state_domain owns_content_state state_in current_unit work_item_destination note_gate
    membership_gate transition_work_item transition_branch transition cut cut_last filter insert
    identity_namespace identity_type identity_id is_dependency dependencies successors explore
    closure_fuel plan_closure replaces add_row other_active_containers disjoint_from activation_gate
    lock_put lock_plan_puts activation_result activate_container is_pending complete_container
    contains any lookup
done_run_succeeds = refl

transition-IsLegal_example :
    (ref : Reference) × (current : KnowledgeUnit) × LegalIn
      (test_world "r1")
      test_store
      done_request
      ref
      current
      (result_of done_run)
transition-IsLegal_example =
    transition-IsLegal (test_world "r1") test_store done_request (after_of done_run)
      (result_of done_run) done_run_succeeds

step_of_todo : transition_step "todo" true ≢ ""
unfolding transition_step
step_of_todo e = cc

transition_step-IsLegal_example :
    is_legal_execution_transition "todo" (transition_step "todo" true) ≡ true
transition_step-IsLegal_example = transition_step-IsLegal "todo" true step_of_todo

abbrev login : Reference
login = record { namespace = "acme"; ty = "sto"; id = "login"; version = 0; has_version = false }

abbrev ann : AuthorIdentity
ann = record { kind = "user"; name = "ann" }

-- A work item that has just the note, moved to a state.
abbrev move_item : String → String → Result Failure (Store × TransitionResult)
move_item from to =
    transition_work_item (test_world "r1") test_store "p" "r1" login item from
      (request "sto:login" to) ann

abbrev to_done : Result Failure (Store × TransitionResult)
to_done = move_item "in-review" "done"

abbrev to_review : Result Failure (Store × TransitionResult)
to_review = move_item "in-progress" "in-review"

abbrev note_seen : GateNote
note_seen = record { role = "implementation"; note_state = "resolved"; identity = "acme/cmt:n1" }

to_done_succeeds : to_done ≡ ok (after_of to_done, result_of to_done)
unfolding trim_space parse_reference all_digits is_known_type is_versioned_type type_tokens itoa
    line_of reference_line canonical_form is_author_kind index_of before lacks domain_values
    owned_domains is_work_item_type number_group is_legal_execution_transition find_payload find_ref
    insert_payload upsert_ref same_number has_duplicate_number max_number hash_unit ancestor_walk
    is_ancestor new_row move_ref put_unit_tx put_unit put_units decode_unit unit decode_rows
    units_by_query units_by_project units_by_line refs_by_project sort newer latest_from latest
    by_line_from by_line of_type target_of same_line names_line discusses_target note_role_of
    note_of_unit collect_gate_notes is_resolved_implementation is_unresolved gate_violations
    membership_step ticket_membership active_lines registers registered_in_active_container
    container_work_items resolve_depends_on_plan plan_line with_state transitioned ref_of publish
    publish_state_transition transition_step authority is_transitionable transition_target
    state_domain owns_content_state state_in current_unit work_item_destination note_gate
    membership_gate transition_work_item transition_branch transition cut cut_last filter insert
    identity_namespace identity_type identity_id is_dependency dependencies successors explore
    closure_fuel plan_closure replaces add_row other_active_containers disjoint_from activation_gate
    lock_put lock_plan_puts activation_result activate_container is_pending complete_container
    contains any lookup
to_done_succeeds = refl

to_review_succeeds : to_review ≡ ok (after_of to_review, result_of to_review)
unfolding trim_space parse_reference all_digits is_known_type is_versioned_type type_tokens itoa
    line_of reference_line canonical_form is_author_kind index_of before lacks domain_values
    owned_domains is_work_item_type number_group is_legal_execution_transition find_payload find_ref
    insert_payload upsert_ref same_number has_duplicate_number max_number hash_unit ancestor_walk
    is_ancestor new_row move_ref put_unit_tx put_unit put_units decode_unit unit decode_rows
    units_by_query units_by_project units_by_line refs_by_project sort newer latest_from latest
    by_line_from by_line of_type target_of same_line names_line discusses_target note_role_of
    note_of_unit collect_gate_notes is_resolved_implementation is_unresolved gate_violations
    membership_step ticket_membership active_lines registers registered_in_active_container
    container_work_items resolve_depends_on_plan plan_line with_state transitioned ref_of publish
    publish_state_transition transition_step authority is_transitionable transition_target
    state_domain owns_content_state state_in current_unit work_item_destination note_gate
    membership_gate transition_work_item transition_branch transition cut cut_last filter insert
    identity_namespace identity_type identity_id is_dependency dependencies successors explore
    closure_fuel plan_closure replaces add_row other_active_containers disjoint_from activation_gate
    lock_put lock_plan_puts activation_result activate_container is_pending complete_container
    contains any lookup
to_review_succeeds = refl

to_done_state : (result_of to_done).to ≡ "done"
unfolding trim_space parse_reference all_digits is_known_type is_versioned_type type_tokens itoa
    line_of reference_line canonical_form is_author_kind index_of before lacks domain_values
    owned_domains is_work_item_type number_group is_legal_execution_transition find_payload find_ref
    insert_payload upsert_ref same_number has_duplicate_number max_number hash_unit ancestor_walk
    is_ancestor new_row move_ref put_unit_tx put_unit put_units decode_unit unit decode_rows
    units_by_query units_by_project units_by_line refs_by_project sort newer latest_from latest
    by_line_from by_line of_type target_of same_line names_line discusses_target note_role_of
    note_of_unit collect_gate_notes is_resolved_implementation is_unresolved gate_violations
    membership_step ticket_membership active_lines registers registered_in_active_container
    container_work_items resolve_depends_on_plan plan_line with_state transitioned ref_of publish
    publish_state_transition transition_step authority is_transitionable transition_target
    state_domain owns_content_state state_in current_unit work_item_destination note_gate
    membership_gate transition_work_item transition_branch transition cut cut_last filter insert
    identity_namespace identity_type identity_id is_dependency dependencies successors explore
    closure_fuel plan_closure replaces add_row other_active_containers disjoint_from activation_gate
    lock_put lock_plan_puts activation_result activate_container is_pending complete_container
    contains any lookup
to_done_state = refl

to_review_state : (result_of to_review).to ≡ "in-review"
unfolding trim_space parse_reference all_digits is_known_type is_versioned_type type_tokens itoa
    line_of reference_line canonical_form is_author_kind index_of before lacks domain_values
    owned_domains is_work_item_type number_group is_legal_execution_transition find_payload find_ref
    insert_payload upsert_ref same_number has_duplicate_number max_number hash_unit ancestor_walk
    is_ancestor new_row move_ref put_unit_tx put_unit put_units decode_unit unit decode_rows
    units_by_query units_by_project units_by_line refs_by_project sort newer latest_from latest
    by_line_from by_line of_type target_of same_line names_line discusses_target note_role_of
    note_of_unit collect_gate_notes is_resolved_implementation is_unresolved gate_violations
    membership_step ticket_membership active_lines registers registered_in_active_container
    container_work_items resolve_depends_on_plan plan_line with_state transitioned ref_of publish
    publish_state_transition transition_step authority is_transitionable transition_target
    state_domain owns_content_state state_in current_unit work_item_destination note_gate
    membership_gate transition_work_item transition_branch transition cut cut_last filter insert
    identity_namespace identity_type identity_id is_dependency dependencies successors explore
    closure_fuel plan_closure replaces add_row other_active_containers disjoint_from activation_gate
    lock_put lock_plan_puts activation_result activate_container is_pending complete_container
    contains any lookup
to_review_state = refl

notes_collected : collect_gate_notes (test_world "r1") test_store "p" login ≡ ok (note_seen ∷ [])
unfolding trim_space parse_reference all_digits is_known_type is_versioned_type type_tokens itoa
    line_of reference_line canonical_form is_author_kind index_of before lacks domain_values
    owned_domains is_work_item_type number_group is_legal_execution_transition find_payload find_ref
    insert_payload upsert_ref same_number has_duplicate_number max_number hash_unit ancestor_walk
    is_ancestor new_row move_ref put_unit_tx put_unit put_units decode_unit unit decode_rows
    units_by_query units_by_project units_by_line refs_by_project sort newer latest_from latest
    by_line_from by_line of_type target_of same_line names_line discusses_target note_role_of
    note_of_unit collect_gate_notes is_resolved_implementation is_unresolved gate_violations
    membership_step ticket_membership active_lines registers registered_in_active_container
    container_work_items resolve_depends_on_plan plan_line with_state transitioned ref_of publish
    publish_state_transition transition_step authority is_transitionable transition_target
    state_domain owns_content_state state_in current_unit work_item_destination note_gate
    membership_gate transition_work_item transition_branch transition cut cut_last filter insert
    identity_namespace identity_type identity_id is_dependency dependencies successors explore
    closure_fuel plan_closure replaces add_row other_active_containers disjoint_from activation_gate
    lock_put lock_plan_puts activation_result activate_container is_pending complete_container
    contains any lookup
notes_collected = refl

done_needs_notes_example : note_seen.note_state ≡ "resolved"
done_needs_notes_example =
    done_needs_notes (test_world "r1") test_store "p" "r1" login item "in-review"
      (request "sto:login" "done") ann (after_of to_done) (result_of to_done) (note_seen ∷ [])
      note_seen to_done_succeeds to_done_state notes_collected (inl refl)

review_needs_note_example :
    (notes : List GateNote) × (n : GateNote) × (collect_gate_notes
        (test_world "r1")
        test_store
        "p"
        login
      ≡ ok notes)
    × Member n notes
    × (n.role ≡ "implementation")
    × (n.note_state ≡ "resolved")
review_needs_note_example =
    review_needs_note (test_world "r1") test_store "p" "r1" login item "in-progress"
      (request "sto:login" "in-review") ann (after_of to_review) (result_of to_review)
      to_review_succeeds to_review_state

unconfirmed_needs_container_example :
    (us : List KnowledgeUnit) × (units_by_project test_codec test_store "p" ≡ ok us)
    × IsRegistered us login
    × ((result_of to_done).warning ≡ "")
unconfirmed_needs_container_example =
    unconfirmed_needs_container (test_world "r1") test_store "p" "r1" login item "in-review"
      (request "sto:login" "done") ann (after_of to_done) (result_of to_done) to_done_succeeds refl
