-- ===== src/Tests/Retired.antt =====
-- A retired plan and a superseded ADR.
use Prim.{tt}
use eka_core.Base.{
  [], ◌∷◌, inl, All, String, ◌≡◌, refl, ◌⊎◌, true, false, List, any, filter, Member, lookup, insert,
  contains, Result, ok, trim_space, cut, cut_last, itoa, sort,
}
use eka_core.Conformance.State.{
  type_tokens, content_state_variant, domain_values, index_of, is_known_type, is_work_item_type,
  number_group,
}
use eka_core.Conformance.Reference.{
  Reference, all_digits, parse_reference, line_form, reference_line,
}
use eka_core.Exchange.{AuthorIdentity, KnowledgeUnit, line_of, canonical_form}
use eka_core.Store.Rows.{
  Store, find_payload, find_ref, insert_payload, upsert_ref, same_number, has_duplicate_number,
  max_number,
}
use eka_core.Store.Put.{
  hash_unit, ancestor_walk, is_ancestor, new_row, move_ref, put_unit_tx, put_unit,
}
use eka_core.Store.Query.{decode_unit, decode_rows, units_by_query, units_by_project}
use eka_core.Runtime.World.{TransitionRequest, TransitionResult, Failure}
use eka_core.Runtime.Units.{
  latest, latest_from, version_of, newer, by_line_from, by_line, of_type, target_of,
}
use eka_core.Runtime.Plan.{
  resolve_depends_on_plan, plan_line, derives_from_plan, active_containers_for_plan,
}
use eka_core.Runtime.Plan.Idle.{IsActiveDependent}
use eka_core.Runtime.Publish.{with_state, transitioned, ref_of, publish, publish_state_transition}
use eka_core.Runtime.PlanState.{plan_destination, retirement_gate, transition_plan_state}
use eka_core.Runtime.ContentState.{
  replaces_instance, supersedes, is_instance, is_superseder, has_superseder, next_value,
  content_destination, is_next, transition_content_state,
}
use eka_core.Tests.Data.{
  running, locked_plan_unit, old_adr, test_codec, test_world, request, after_of, result_of,
  adr_store,
}
use eka_core.Runtime.Transition.Retired.{adr_needs_superseder, retirement_needs_idle}

abbrev the_state : String → String
the_state s = s

abbrev by_ann : AuthorIdentity
by_ann = record { kind = "user"; name = "ann" }

abbrev adr_ref : Reference
adr_ref = record { namespace = "acme"; ty = "adr"; id = "a1"; version = 0; has_version = false }

abbrev plan_ref : Reference
plan_ref = record { namespace = "acme"; ty = "plan"; id = "p1"; version = 0; has_version = false }

abbrev end_request : String → TransitionRequest
end_request target = request target "superseded"

abbrev adr_run : Result Failure (Store × TransitionResult)
adr_run =
    transition_content_state (test_world "r1") adr_store "p" "r1" adr_ref old_adr "accepted"
      (end_request "adr:a1") by_ann

abbrev plan_run : Result Failure (Store × TransitionResult)
plan_run =
    transition_plan_state (test_world "r1") adr_store "p" "r1" plan_ref locked_plan_unit "immutable"
      (end_request "plan:p1") by_ann

adr_run_succeeds : adr_run ≡ ok (after_of adr_run, result_of adr_run)
unfolding trim_space parse_reference all_digits is_known_type type_tokens itoa cut cut_last line_of
    reference_line canonical_form index_of domain_values content_state_variant number_group
    is_work_item_type find_payload find_ref insert_payload upsert_ref same_number
    has_duplicate_number max_number hash_unit ancestor_walk is_ancestor new_row move_ref put_unit_tx
    put_unit decode_unit decode_rows units_by_query units_by_project sort newer by_line_from by_line
    of_type target_of insert lookup filter any contains with_state transitioned ref_of publish
    publish_state_transition plan_destination retirement_gate active_containers_for_plan
    derives_from_plan resolve_depends_on_plan plan_line transition_plan_state content_destination
    is_next next_value has_superseder is_superseder is_instance supersedes replaces_instance
    transition_content_state
adr_run_succeeds = refl

adr_run_ends : (result_of adr_run).to ≡ "superseded"
unfolding trim_space parse_reference all_digits is_known_type type_tokens itoa cut cut_last line_of
    reference_line canonical_form index_of domain_values content_state_variant number_group
    is_work_item_type find_payload find_ref insert_payload upsert_ref same_number
    has_duplicate_number max_number hash_unit ancestor_walk is_ancestor new_row move_ref put_unit_tx
    put_unit decode_unit decode_rows units_by_query units_by_project sort newer by_line_from by_line
    of_type target_of insert lookup filter any contains with_state transitioned ref_of publish
    publish_state_transition plan_destination retirement_gate active_containers_for_plan
    derives_from_plan resolve_depends_on_plan plan_line transition_plan_state content_destination
    is_next next_value has_superseder is_superseder is_instance supersedes replaces_instance
    transition_content_state
adr_run_ends = refl

plan_run_succeeds : plan_run ≡ ok (after_of plan_run, result_of plan_run)
unfolding trim_space parse_reference all_digits is_known_type type_tokens itoa cut cut_last line_of
    reference_line canonical_form index_of domain_values content_state_variant number_group
    is_work_item_type find_payload find_ref insert_payload upsert_ref same_number
    has_duplicate_number max_number hash_unit ancestor_walk is_ancestor new_row move_ref put_unit_tx
    put_unit decode_unit decode_rows units_by_query units_by_project sort newer by_line_from by_line
    of_type target_of insert lookup filter any contains with_state transitioned ref_of publish
    publish_state_transition plan_destination retirement_gate active_containers_for_plan
    derives_from_plan resolve_depends_on_plan plan_line transition_plan_state content_destination
    is_next next_value has_superseder is_superseder is_instance supersedes replaces_instance
    transition_content_state
plan_run_succeeds = refl

adr_needs_superseder_example :
    (us : List KnowledgeUnit) × (u : KnowledgeUnit) × (units_by_project test_codec adr_store "p"
      ≡ ok us)
    × Member u us
    × (is_superseder adr_ref (version_of old_adr) u ≡ true)
adr_needs_superseder_example =
    adr_needs_superseder (test_world "r1") adr_store "p" "r1" adr_ref old_adr "accepted"
      (end_request "adr:a1") by_ann (after_of adr_run) (result_of adr_run) adr_run_succeeds refl
      adr_run_ends

retirement_needs_idle_example :
    (((result_of plan_run).to ≡ "approved") × (the_state "immutable" ≡ "draft"))
    ⊎ (((result_of plan_run).to ≡ "superseded")
        × (the_state "immutable" ≡ "immutable")
        × ((us : List KnowledgeUnit) × (units_by_project test_codec adr_store "p" ≡ ok us)
            × All (λ (u : KnowledgeUnit). ¬ IsActiveDependent us (reference_line plan_ref) u) us))
retirement_needs_idle_example =
    retirement_needs_idle (test_world "r1") adr_store "p" "r1" plan_ref locked_plan_unit "immutable"
      (end_request "plan:p1") by_ann (after_of plan_run) (result_of plan_run) plan_run_succeeds

-- A running container that depends on the plan alone is what a retirement excludes.
running_depends : IsActiveDependent (running ∷ []) "acme/plan:p1" running
unfolding latest latest_from newer filter of_type line_of target_of parse_reference reference_line
    line_form trim_space cut cut_last all_digits is_known_type type_tokens lookup
running_depends = record {
  current = refl;
  active = refl;
  depends = (
    (
      record { ty = "depends-on"; target = "plan:p1" },
      inl refl,
      (plan_ref, refl, refl, refl, refl),
    ),
    (inl (plan_ref, refl, refl, refl, refl), tt),
  );
}
