-- ===== src/Tests/Validation.antt =====
-- Runs of the validator and of the import's comparison.
use eka_core.Base.{
  ℕ, ◌≤◌, String, ◌≡◌, refl, ◌↔◌, inl, inr, true, false, ◌||◌, Option, none, some, List, [], ◌∷◌,
  map, eqb, ◌==◌, if◌then◌else◌, length, filter, Member, All, flat_map, find, lookup, is_some,
  contains, ◌⊕◌, trim_space, cut, cut_last, split, sort,
}
use eka_core.Conformance.State.{
  domain_content_state, type_tokens, execution_state_values, content_state_variant, domain_values,
  index_of, is_legal_execution_transition, lacks, is_legal_transition, owned_domains, is_known_type,
  is_versioned_type,
}
use eka_core.Conformance.Reference.{all_digits, parse_reference}
use eka_core.Conformance.Artifact.{
  ContentFields, Artifact, state_of, relation, same_identity, text_value, no_fields, field,
}
use eka_core.Conformance.Engine.{
  Detail, Finding, Engine, finding, finding_if, bucket, resolve_in, warning, no_container,
}
use eka_core.Conformance.Rules.Identity.{rule1}
use eka_core.Conformance.Rules.Identity.Unique.{AllDistinct, rule1_iff}
use eka_core.Conformance.Rules.States.{rule3, rule4}
use eka_core.Conformance.Rules.States.Vector.{IsTypedField, HasField, IsTypedPhase, state_rules_iff}
use eka_core.Conformance.Rules.ChangeLog.{
  ownership_findings, entry_value_findings, entry_findings, entries_findings, entries_for_domain,
  last_entry, illegal_findings, current_value, domain_findings, needed_domains, no_log_findings,
  log_findings, rule7,
}
use eka_core.Conformance.Rules.Notes.{notes_discussing, gate_findings}
use eka_core.Conformance.Rules.Notes.Gates.{gate_note, gate_findings_iff}
use eka_core.Conformance.Report.{repository_engine, pass, sorted_results}
use eka_core.Conformance.Report.Verdict.{pass_iff}
use eka_core.Exchange.{AuthorIdentity, ChangeLogEntry, KnowledgeUnit}
use eka_core.Exchange.Projection.{states_of, log_entry, content_object, to_artifact}
use eka_core.Exchange.Conflict.{
  unit_differences, TargetFile, classify, classify_units, classify_attachments, checks, noted,
  same_author, same_vector, same_list, change_logs_equal, relationships_equal,
  classifications_equal, absent, data_of,
}
use eka_core.Exchange.Conflict.Aspects.{SameAspects, unit_differences-eq-nil}
use eka_core.Exchange.Conflict.Refusal.{IsCompatible, IsCompatibleFile, classify-conflicts-eq-nil}
use eka_core.Runtime.Gates.{gate_violations}
use eka_core.Runtime.Publish.{transitioned}
use eka_core.Runtime.Publish.Domains.{published_domains}
use eka_core.Runtime.Publish.Compliant.{transitioned-rule7}
use eka_core.Runtime.Transition.Progress.{advance, AllLegal, advance-done}
use eka_core.Tests.Data.{item}
use eka_core.Conformance.Domain.{token_domain, domain_for_token, stratum, execution}
use eka_core.Conformance.Rules.Strata.{
  targets_of, chain_targets, is_above, visit, reaches_above, has_higher_chain, exempt_tokens,
  rule10,
}
use eka_core.Conformance.Rules.Strata.Fuel.{has_higher_chain-ends}
use eka_core.Conformance.Rules.Strata.Chain.{Chain, rule10-Chain}

abbrev plain_artifact : String → String → List (String × String) → Artifact
plain_artifact ty id states = record {
  rel_path = "docs/" ⊕ (ty ⊕ ("-" ⊕ (id ⊕ ".json")));
  file_name = ty ⊕ ("-" ⊕ (id ⊕ ".json"));
  folders = "docs" ∷ [];
  namespace = "acme";
  ty = ty;
  id = id;
  instance_version = 1;
  revision = 1;
  created = "2026-01-01";
  updated = "2026-01-01";
  states = states;
  phase = "";
  has_phase = false;
  has_phase_key = false;
  dimension = "";
  has_dimension = false;
  dimensions_secondary = [];
  domain = "";
  relations = [];
  change_log = [];
  body_lines = [];
  content_fields = none;
}

abbrev story : Artifact
story =
    plain_artifact "sto" "login"
      (("execution-state", "in-review") ∷ ("existence-state", "active") ∷ [])

abbrev story_note : Artifact
story_note = record (plain_artifact "cmt" "n1" (("note-state", "resolved") ∷ [])) {
  relations = ("discusses", "sto:login" ∷ []) ∷ [];
  content_fields = some (field "role" (text_value "implementation") no_fields);
}

abbrev scanned : List Artifact
scanned = story ∷ story_note ∷ []

rule1_iff_example : rule1 (repository_engine scanned) ≡ [] ↔ AllDistinct scanned
unfolding repository_engine
rule1_iff_example = rule1_iff (repository_engine scanned)

gate_findings_iff_example :
    gate_findings scanned story "in-review" ≡ []
    ↔ (gate_violations (map gate_note (notes_discussing scanned story)) "in-review" ≡ none)
gate_findings_iff_example = gate_findings_iff scanned story "in-review"

story_type_known : is_known_type "sto" ≡ true
unfolding is_known_type type_tokens lookup
story_type_known = refl

state_rules_iff_example : ((rule3 story ≡ []) × (rule4 story ≡ [])) ↔ (
    All (IsTypedField story) story.states
    × All (HasField story) (owned_domains "sto")
    × IsTypedPhase story)
state_rules_iff_example = state_rules_iff story story_type_known

-- A message shows only its kind here.
abbrev blank_render : Detail → String
blank_render d = ""

abbrev remarks : List Finding
remarks =
    record { file = "docs/a.json"; rule = "R10"; severity = warning; detail = no_container } ∷ []

pass_iff_example :
    pass remarks ≡ true
    ↔ ((f : Finding) → Member f (sorted_results blank_render remarks) → f.severity ≡ warning)
pass_iff_example = pass_iff blank_render remarks

abbrev revised : KnowledgeUnit
revised = record item { phase = "mvp" }

unit_differences-eq-nil_example : unit_differences revised item ≡ [] ↔ SameAspects revised item
unit_differences-eq-nil_example = unit_differences-eq-nil revised item

abbrev target_unit : String → Option KnowledgeUnit
target_unit form = if form == item.canonical_identity_form then some item else none

abbrev target_file : String → TargetFile
target_file id = if id == "img/a.png" then data_of "png" else absent

abbrev package_files : List (String × String)
package_files = ("img/a.png", "png") ∷ ("img/b.png", "other") ∷ []

classify-conflicts-eq-nil_example :
    (((classify target_unit target_file (revised ∷ []) package_files).conflicts ≡ [])
      × ((classify target_unit target_file (revised ∷ []) package_files).conflict_attachment ≡ []))
    ↔ (All (IsCompatible target_unit) (revised ∷ [])
        × All (IsCompatibleFile target_file) package_files)
classify-conflicts-eq-nil_example =
    classify-conflicts-eq-nil target_unit target_file (revised ∷ []) package_files

-- A unit that differs from the target's only in the Engineering Domain and the provenance.
abbrev reclassified : KnowledgeUnit
reclassified = record item {
  classification = record (item.classification) { domain = "other" };
  provenance = "other";
}

reclassified_duplicate :
    (classify target_unit target_file (reclassified ∷ []) []).duplicate_forms
    ≡ item.canonical_identity_form ∷ []
unfolding classify classify_units classify_attachments unit_differences checks noted same_author
    same_vector same_list change_logs_equal relationships_equal classifications_equal sort
reclassified_duplicate = refl

abbrev todo_state : String
todo_state = "todo"

todo_member : Member todo_state execution_state_values
todo_member = inr (inl refl)

advance-done_example :
    (steps : ℕ) × (steps ≤ 4) × AllLegal steps todo_state × (advance steps todo_state ≡ "done")
advance-done_example = advance-done todo_state todo_member

abbrev no_json : String → Option ContentFields
no_json payload = none

abbrev ann : AuthorIdentity
ann = record { kind = "user"; name = "ann" }

abbrev first_entry : String → String → ChangeLogEntry
first_entry domain to = record {
  date = "2026-01-01";
  domain = domain;
  from = "-";
  to = to;
  by = ann;
}

-- A work item at todo, with its log.
abbrev logged_item : KnowledgeUnit
logged_item = record item {
  state_vector = record item.state_vector { execution_state = "todo"; existence_state = "active" };
  change_log = first_entry "execution-state" "todo" ∷ first_entry "existence-state" "active" ∷ [];
}

execution_member : Member "execution-state" published_domains
execution_member = inr (inl refl)

execution_owned : Member "execution-state" (owned_domains logged_item.identity.ty)
unfolding is_known_type owned_domains type_tokens lookup state_of to_artifact states_of filter
    domain_values content_state_variant contains is_legal_transition lacks index_of
    is_legal_execution_transition rule7 log_findings no_log_findings entries_findings entry_findings
    ownership_findings entry_value_findings needed_domains flat_map domain_findings current_value
    entries_for_domain last_entry illegal_findings finding finding_if log_entry is_versioned_type
    content_object split
execution_owned = inl refl

todo_held : state_of "execution-state" (to_artifact no_json logged_item) ≡ "todo"
unfolding is_known_type owned_domains type_tokens lookup state_of to_artifact states_of filter
    domain_values content_state_variant contains is_legal_transition lacks index_of
    is_legal_execution_transition rule7 log_findings no_log_findings entries_findings entry_findings
    ownership_findings entry_value_findings needed_domains flat_map domain_findings current_value
    entries_for_domain last_entry illegal_findings finding finding_if log_entry is_versioned_type
    content_object split
todo_held = refl

todo_value : Member "todo" (domain_values "execution-state" logged_item.identity.ty)
unfolding is_known_type owned_domains type_tokens lookup state_of to_artifact states_of filter
    domain_values content_state_variant contains is_legal_transition lacks index_of
    is_legal_execution_transition rule7 log_findings no_log_findings entries_findings entry_findings
    ownership_findings entry_value_findings needed_domains flat_map domain_findings current_value
    entries_for_domain last_entry illegal_findings finding finding_if log_entry is_versioned_type
    content_object split
todo_value = inr (inl refl)

todo_step :
    is_legal_transition "execution-state" logged_item.identity.ty "todo" "in-progress" ≡ true
unfolding is_known_type owned_domains type_tokens lookup state_of to_artifact states_of filter
    domain_values content_state_variant contains is_legal_transition lacks index_of
    is_legal_execution_transition rule7 log_findings no_log_findings entries_findings entry_findings
    ownership_findings entry_value_findings needed_domains flat_map domain_findings current_value
    entries_for_domain last_entry illegal_findings finding finding_if log_entry is_versioned_type
    content_object split
todo_step = refl

logged_item-rule7 : rule7 (to_artifact no_json logged_item) ≡ []
unfolding is_known_type owned_domains type_tokens lookup state_of to_artifact states_of filter
    domain_values content_state_variant contains is_legal_transition lacks index_of
    is_legal_execution_transition rule7 log_findings no_log_findings entries_findings entry_findings
    ownership_findings entry_value_findings needed_domains flat_map domain_findings current_value
    entries_for_domain last_entry illegal_findings finding finding_if log_entry is_versioned_type
    content_object split
logged_item-rule7 = refl

transitioned-rule7_example :
    rule7 (
      to_artifact no_json
        (transitioned "2026-02-01" "execution-state" "todo" "in-progress" ann logged_item))
    ≡ []
transitioned-rule7_example =
    transitioned-rule7 no_json "2026-02-01" "execution-state" "todo" "in-progress" ann logged_item
      story_type_known execution_member execution_owned todo_held refl todo_value todo_step refl
      logged_item-rule7

abbrev decision : Artifact
decision = plain_artifact "adr" "d1" (("content-state", "accepted") ∷ [])

abbrev traced : Artifact
traced = record story { relations = ("derives-from", "adr:d1" ∷ []) ∷ [] }

abbrev traced_engine : Engine
traced_engine = record {
  artifacts = traced ∷ decision ∷ [];
  skip_location = false;
  cko_resolve = none;
  draft_ref = none;
}

traced_home : domain_for_token "sto" ≡ some execution
unfolding domain_for_token token_domain lookup
traced_home = refl

traced_bound :
    (eqb (stratum execution) 1
      || (contains exempt_tokens "sto" || state_of domain_content_state traced == "draft"))
    ≡ false
unfolding stratum contains state_of lookup
traced_bound = refl

traced_clean : rule10 traced_engine traced ≡ []
unfolding rule10 is_known_type type_tokens lookup domain_for_token token_domain stratum contains
    state_of has_higher_chain reaches_above visit chain_targets targets_of relation parse_reference
    all_digits resolve_in bucket filter same_identity sort find is_above trim_space cut cut_last
    length
traced_clean = refl

rule10-Chain_example : Chain (traced ∷ decision ∷ []) execution traced
rule10-Chain_example =
    rule10-Chain traced_engine traced execution story_type_known traced_home traced_bound
      traced_clean

has_higher_chain-ends_example : is_some (has_higher_chain scanned execution story) ≡ true
has_higher_chain-ends_example = has_higher_chain-ends scanned execution story
