-- ===== src/Runtime/Relate.antt =====
-- runtime/relate.go: the checks of the edges of a request, and their union with those of a unit.
pub mod Union
use eka_core.Base.{
  ℕ, zero, suc, ◌+◌, ◌-◌, ◌*◌, ◌/◌, ◌%◌, ◌≤◌, ◌<◌, String, ◌≡◌, refl, sym, ap, ◌∙◌, ◌≢◌, ◌↔◌, ◌⊎◌,
  inl, inr, Bool, true, false, not, ◌&&◌, ◌||◌, Option, none, some, List, [], ◌∷◌, ◌++◌, map, arith,
  eq_iff, eq_refl, ltb, leb, eqb, ◌==◌, if◌then◌else◌, Bool-cases, Option-cases, eq_of_==, ==_of_eq,
  &&_elim, ||_elim, if_elim, not-both, eq_of_eqb, eqb_of_eq, length, get_elem?, any, filter,
  length-append, Member, All, List-cases, flat_map, find, lookup, insert, is_some, contains, Result,
  ◌>>=◌, >>=-eq-ok, Result-cases, ok_value, eq_of_ok-eq-ok, if-eq-ok, if_err-eq-ok,
  if_else_err-eq-ok, ok, err, ◌⊕◌, is_space, trim_left, cons_trimmed, trim_right, trim_space, every,
  cut, cut_last, is_digit, digits_value, atoi, itoa, drop_prefix, split, fields_func, join,
  to_lower, capitalized, is_ascii_letter, trim_left_of, trim_right_of, every-append, every_of_imp,
  is_not, cut-append, cut-eq-none, cut_last-eq-none, trim_space-clean, text_below, insert_sorted,
  sort, mem-sort, sort-eq-nil, insert_stable, stable_sort, mem-stable_sort, contains_iff,
  Member-append, Member-filter, length-filter, unseen, unseen-le, unseen-lt, unseen_start,
}
use eka_core.Exchange.{
  AuthorIdentity, kind_user, author_kinds, is_author_kind, Identity, StateVector, ChangeLogEntry,
  Relationship, Classification, CaptureMeta, ContentRef, KnowledgeUnit, line_of, canonical_form,
  Codec, decoded,
}
use eka_core.Conformance.State.{
  domain_content_state, domain_execution_state, domain_planning_state, domain_container_state,
  domain_existence_state, domain_note_state, domain_phase, relationship_fields, versioned_types,
  work_item_types, TypeInfo, type_tokens, execution_state_values, planning_state_values,
  container_state_values, existence_state_values, note_state_values, phase_values, living_values,
  adr_values, decision_values, content_state_variant, domain_values, index_of, before,
  is_legal_execution_transition, lacks, is_legal_transition, owned_domains, is_known_type,
  is_versioned_type, is_work_item_type, valid_state_value, number_group,
}
use eka_core.Conformance.Artifact.{
  LogEntry, ContentValue, ContentFields, ContentItems, Artifact, state_of, relation, content_value,
  same_file, same_identity, text_value, object_value, list_value, other_value, no_fields, field,
  no_items, value_item,
}
use eka_core.Conformance.Reference.{
  Reference, ReferenceError, all_digits, parse_reference, line_form, reference_line,
  empty_reference, empty_namespace, missing_type, bad_version, bad_id, unknown_type,
}
use eka_core.Store.Rows.{
  PayloadRow, Ref, RefRow, Store, StoreError, find_payload, find_ref, insert_payload, upsert_ref,
  same_number, has_duplicate_number, max_number, payload_not_found, undecodable, form_mismatch,
  number_taken, busy,
}
use eka_core.Store.Query.{
  decode_unit, unit, by_form, decode_rows, units_by_query, units, units_by_project, units_by_line,
  refs_by_source, ref_count, payload_count, refs_by_project, max_instance_version, number_for_line,
}

pub data RelateRefusal : Type 0 where
  unknown_relationship_type : String → RelateRefusal
  empty_target : RelateRefusal
  malformed_reference : String → String → ReferenceError → RelateRefusal
  self_reference : String → String → RelateRefusal

-- `draft`: a versioned reference to the own line is then a reference to itself, too.
unfoldable pub names_self : String → String → String → ℕ → Bool → Reference → Bool
names_self ns ty id version draft ref =
    (ref.namespace == ns && (ref.ty == ty && ref.id == id))
    && (draft || (not ref.has_version || eqb ref.version version))

unfoldable pub check_relate_edge :
    String → String → String → ℕ → Bool → Relationship → Result RelateRefusal Unit
unfolding contains trim_space names_self
check_relate_edge ns ty id version draft rel =
    if not (contains relationship_fields rel.ty)
    then err (unknown_relationship_type rel.ty)
    else if trim_space rel.target == ""
    then err empty_target
    else elim (parse_reference rel.target ns ty) [
      | err why ↦ err (malformed_reference rel.target rel.ty why)
      | ok ref ↦
          if names_self ns ty id version draft ref
          then err (self_reference rel.target rel.ty)
          else ok tt
    ]

unfoldable pub check_relate_edges :
    String → String → String → ℕ → Bool → List Relationship → Result RelateRefusal Unit
unfolding check_relate_edge
check_relate_edges ns ty id version draft [] = ok tt
check_relate_edges ns ty id version draft (rel ∷ rels) =
    let rest = check_relate_edges ns ty id version draft rels in
    check_relate_edge ns ty id version draft rel >>= λ done. rest

abbrev pub same_edge : Relationship → Relationship → Bool
same_edge a b = a.ty == b.ty && a.target == b.target

-- `seen[k]`: `keys` lists the edges seen.
unfoldable pub is_seen : List Relationship → Relationship → Bool
unfolding any
is_seen keys rel = any (same_edge rel) keys

-- The loop over `existing`.
unfoldable pub distinct_edges : List Relationship → List Relationship → List Relationship
unfolding is_seen
distinct_edges keys [] = keys
distinct_edges keys (rel ∷ rels) =
    distinct_edges (if is_seen keys rel then keys else keys ++ (rel ∷ [])) rels

unfoldable pub trimmed : Relationship → Relationship
unfolding trim_space
trimmed rel = record rel { target = trim_space rel.target }

unfoldable pub is_skipped : List Relationship → Relationship → Bool
unfolding is_seen
is_skipped keys rel = rel.target == "" || is_seen keys rel

-- The loop over `adds`: what it appends to `added`.
unfoldable pub added_edges : List Relationship → List Relationship → List Relationship
unfolding is_skipped trimmed
added_edges keys [] = []
added_edges keys (rel ∷ rels) =
    let skipped = is_skipped keys (trimmed rel) in
    let later = added_edges (if skipped then keys else keys ++ (trimmed rel ∷ [])) rels in
    if skipped then later else trimmed rel ∷ later

unfoldable pub edge_order : Relationship → Relationship → Bool
edge_order a b = if a.ty == b.ty then text_below a.target b.target else text_below a.ty b.ty

-- `merged` and `added`.
unfoldable pub merge_relationships :
    List Relationship → List Relationship → List Relationship × List Relationship
unfolding distinct_edges added_edges edge_order sort
merge_relationships existing adds =
    let keys = distinct_edges [] existing in
    let added = added_edges keys adds in (sort edge_order (keys ++ added), added)

-- The edges of a scanned draft, in the order of the canonical field names.
unfoldable pub draft_edges : Artifact → List Relationship
unfolding flat_map lookup
draft_edges a =
    flat_map
      (λ (field : String). elim (lookup field a.relations) [
        | none ↦ []
        | some targets ↦ map (λ (raw : String). record { ty = field; target = raw }) targets
      ])
      relationship_fields

-- runtime/draft.go: the answer of `storeResolver.Resolve`; a failing read counts as unresolved.
unfoldable pub store_resolve : Codec → Store → Reference → Bool
unfolding any units_by_line
store_resolve codec s ref = elim (units_by_line codec s ref.namespace ref.ty ref.id) [
  | err why ↦ false
  | ok us ↦
      if not ref.has_version
      then ltb 0 (length us)
      else any (λ (u : KnowledgeUnit). eqb u.identity.instance_version ref.version) us
]
