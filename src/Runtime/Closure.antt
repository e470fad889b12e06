-- ===== src/Runtime/Closure.antt =====
-- runtime/transition.go, `planClosure`: the lines that a container's plan depends on, by a worklist.
pub mod Reach
pub mod Fuel
use eka_core.Base.{
  ℕ, zero, suc, ◌+◌, ◌-◌, ◌*◌, ◌/◌, ◌%◌, ◌≤◌, ◌<◌, String, ◌≡◌, refl, sym, ap, ◌∙◌, ◌≢◌, ◌↔◌, ◌⊎◌,
  inl, inr, Bool, true, false, not, ◌&&◌, ◌||◌, Option, none, some, List, [], ◌∷◌, ◌++◌, map, arith,
  eq_iff, eq_refl, ltb, leb, eqb, ◌==◌, if◌then◌else◌, Bool-cases, Option-cases, eq_of_==, ==_of_eq,
  &&_elim, ||_elim, if_elim, not-both, eq_of_eqb, length, get_elem?, any, filter, length-append,
  Member, All, List-cases, lookup, insert, is_some, contains, Result, ◌>>=◌, >>=-eq-ok,
  Result-cases, ok_value, eq_of_ok-eq-ok, if-eq-ok, if_err-eq-ok, if_else_err-eq-ok, ok, err, ◌⊕◌,
  is_space, trim_left, cons_trimmed, trim_right, trim_space, every, cut, cut_last, is_digit,
  digits_value, atoi, itoa, every-append, every_of_imp, is_not, cut-append, cut-eq-none,
  cut_last-eq-none, trim_space-clean, text_below, insert_sorted, sort, mem-sort, contains_iff,
  Member-append, Member-filter, length-filter, unseen, unseen-lt, unseen_start,
}
use eka_core.Conformance.Reference.{
  Reference, ReferenceError, all_digits, parse_reference, line_form, reference_line,
  empty_reference, empty_namespace, missing_type, bad_version, bad_id, unknown_type,
}
use eka_core.Exchange.{
  AuthorIdentity, kind_user, author_kinds, is_author_kind, Identity, StateVector, ChangeLogEntry,
  Relationship, Classification, CaptureMeta, ContentRef, KnowledgeUnit, line_of, canonical_form,
  Codec, decoded,
}
use eka_core.Store.Rows.{
  PayloadRow, Ref, RefRow, Store, StoreError, find_payload, find_ref, insert_payload, upsert_ref,
  same_number, has_duplicate_number, max_number, payload_not_found, undecodable, form_mismatch,
  number_taken, busy,
}
use eka_core.Store.Query.{
  decode_unit, unit, by_form, decode_rows, units_by_query, units, units_by_project, units_by_line,
  refs_by_project, max_instance_version, number_for_line,
}
use eka_core.Runtime.World.{
  TransitionRequest, TransitionResult, DraftNote, Repo, World, store_env, GateViolation, Failure,
  from_store, from_store-ok, needs_implementation_note, open_notes, authority_required,
  unknown_author_kind, both_to_and_direction, both_directions, not_a_repository, invalid_target,
  published_form, not_transitionable, other_namespace, not_registered, store_failure, not_in_store,
  no_state, no_forward_step, no_backward_step, not_in_table, forward_only, is_terminal, gate,
  drafts_unreadable, unconfirmed, plan_lock, containers_unreadable, plan_in_use, container_active,
  closure_shared, no_plan, several_plans, plan_missing, plan_retired, plan_not_approved,
  items_pending, not_superseded, unserializable, out_of_fuel,
}
use eka_core.Runtime.Units.{
  version_of, newer, latest_from, latest, line_key, by_line_from, by_line, of_type, target_of,
  same_line,
}
use eka_core.Runtime.Plan.{
  resolve_depends_on_plan, plan_line, derives_from_plan, active_containers_for_plan, plan_answers,
}

-- `strings.SplitN(line, "/", 2)[0]`
unfoldable pub identity_namespace : String → String
identity_namespace line = elim (cut b'/' line) [ none ↦ line | some (ns, rest) ↦ ns ]

-- After the first slash, if there is one; the source slices from 0 if there is none.
after_slash : String → String
after_slash line = elim (cut b'/' line) [ none ↦ line | some (ns, rest) ↦ rest ]

-- Up to the first colon. Every line of the walk has one; without it the source would panic.
unfoldable pub identity_type : String → String
unfolding after_slash
identity_type line = elim (cut b':' (after_slash line)) [ none ↦ "" | some (ty, rest) ↦ ty ]

unfoldable pub identity_id : String → String
identity_id line = elim (cut_last b':' line) [ none ↦ line | some (rest, id) ↦ id ]

unfoldable pub is_dependency : Relationship → Bool
is_dependency rel = rel.ty == "depends-on" || rel.ty == "derives-from"

dependency_lines : KnowledgeUnit → List Relationship → List String
dependency_lines u [] = []
dependency_lines u (rel ∷ rels) =
    let rest = dependency_lines u rels in
    if is_dependency rel
    then elim (target_of u rel) [ none ↦ rest | some r ↦ reference_line r ∷ rest ]
    else rest

unfoldable pub dependencies : KnowledgeUnit → List String
unfolding dependency_lines
dependencies u = dependency_lines u u.relationships

-- The lines that the current unit of a line depends on; none for a line that is not stored.
unfoldable pub successors : World → Store → String → Result Failure (List String)
successors w s line =
    from_store
      (units_by_line w.codec s (identity_namespace line) (identity_type line) (identity_id line))
    >>= λ units. elim (latest units) [ none ↦ ok [] | some u ↦ ok (dependencies u) ]

-- The loop: a visited line is skipped, and a new one queues what is not visited.
unfoldable pub explore :
    (String → Result Failure (List String))
    → ℕ
    → List String
    → List String
    → Result Failure (List String)
explore next zero queue closure = err out_of_fuel
explore next (suc fuel) [] closure = ok closure
explore next (suc fuel) (line ∷ queue) closure =
    let skip = explore next fuel queue closure in
    let visit = next line >>= λ deps.
    explore next fuel (queue ++ filter (λ d. not (contains (line ∷ closure) d)) deps)
      (line ∷ closure) in
    if contains closure line then skip else visit

-- The targets of everything stored.
row_targets : Codec → List PayloadRow → RefRow → List String
row_targets codec payloads r = elim (decode_unit codec payloads r.ref.form r.object_hash) [
  | err e ↦ []
  | ok u ↦ dependencies u
]

stored_targets : Codec → List PayloadRow → List RefRow → List String
stored_targets codec payloads [] = []
stored_targets codec payloads (r ∷ rs) =
    row_targets codec payloads r ++ stored_targets codec payloads rs

-- Rounds that always are enough.
unfoldable pub closure_fuel : World → Store → ℕ
unfolding stored_targets row_targets
closure_fuel w s =
    let n = length (stored_targets w.codec s.payloads s.refs) in suc (suc ((suc n) * (suc (suc n))))

unfoldable pub plan_closure : World → Store → KnowledgeUnit → Result Failure (List String)
plan_closure w s ctr = resolve_depends_on_plan ctr >>= λ plan.
    explore (successors w s) (closure_fuel w s) (plan_line plan ∷ []) []
