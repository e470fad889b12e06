-- ===== src/Exchange/Projection.antt =====
-- exchange/artifact.go: the projection of a unit onto the artifact that the rules read.
pub mod Reads
use eka_core.Base.{
  String, not, Option, none, some, List, [], ◌∷◌, ◌++◌, map, ◌==◌, if◌then◌else◌, filter, lookup,
  insert, split,
}
use eka_core.Conformance.State.{
  domain_content_state, domain_execution_state, domain_planning_state, domain_container_state,
  domain_existence_state, domain_note_state,
}
use eka_core.Conformance.Artifact.{LogEntry, ContentFields, Artifact}
use eka_core.Exchange.{StateVector, ChangeLogEntry, Relationship, KnowledgeUnit}

-- The domains of a vector with their values.
abbrev pub state_rows : StateVector → List (String × String)
state_rows v =
    (domain_content_state, v.content_state)
    ∷ (domain_execution_state, v.execution_state)
    ∷ (domain_planning_state, v.planning_state)
    ∷ (domain_container_state, v.container_state)
    ∷ (domain_existence_state, v.existence_state)
    ∷ (domain_note_state, v.note_state)
    ∷ []

-- A domain is present where it has a value.
unfoldable pub states_of : StateVector → List (String × String)
unfolding filter
states_of v = filter (λ (row : String × String). not (row.1 == "")) (state_rows v)

-- `a.Relations[rel.Type] = append(a.Relations[rel.Type], rel.Target)`
add_target : List (String × List String) → Relationship → List (String × List String)
unfolding lookup insert
add_target relations rel = elim (lookup rel.ty relations) [
  | none ↦ insert rel.ty (rel.target ∷ []) relations
  | some targets ↦ insert rel.ty (targets ++ rel.target ∷ []) relations
]

relations_from : List (String × List String) → List Relationship → List (String × List String)
unfolding add_target
relations_from relations [] = relations
relations_from relations (rel ∷ rels) = relations_from (add_target relations rel) rels

unfoldable pub log_entry : ChangeLogEntry → LogEntry
log_entry e = record { date = e.date; domain = e.domain; from = e.from; to = e.to; by = e.by.name }

-- `json_object` reads a payload as `encoding/json` does; `none` is one that is no object.
unfoldable pub content_object :
    (String → Option ContentFields) → KnowledgeUnit → Option ContentFields
content_object json_object u =
    if u.content.representation == "eka/structured-json/1"
    then json_object u.content_payload
    else none

unfoldable pub to_artifact : (String → Option ContentFields) → KnowledgeUnit → Artifact
unfolding states_of relations_from log_entry content_object split
to_artifact json_object u = record {
  rel_path = u.canonical_identity_form;
  file_name = "";
  folders = [];
  namespace = u.identity.namespace;
  ty = u.identity.ty;
  id = u.identity.id;
  instance_version = u.identity.instance_version;
  revision = u.revision;
  created = u.created;
  updated = u.updated;
  states = states_of u.state_vector;
  phase = u.phase;
  has_phase = not (u.phase == "");
  has_phase_key = not (u.phase == "");
  dimension = u.classification.dimension;
  has_dimension = not (u.classification.dimension == "");
  dimensions_secondary = u.classification.dimensions_secondary;
  domain = u.classification.domain;
  relations = relations_from [] u.relationships;
  change_log = map log_entry u.change_log;
  body_lines = split 10 u.content_payload;
  content_fields = content_object json_object u;
}
