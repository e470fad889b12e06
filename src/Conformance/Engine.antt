-- ===== src/Conformance/Engine.antt =====
-- conformance/validate.go and conformance/report.go: findings, the state of the rule engine, and how
-- it resolves a reference.
use eka_core.Base.{
  ℕ, String, Bool, Option, none, some, List, [], ◌∷◌, ltb, eqb, if◌then◌else◌, filter, find,
  is_some, sort,
}
use eka_core.Conformance.Artifact.{Artifact, same_identity}
use eka_core.Conformance.Reference.{Reference, ReferenceError}

pub data Severity : Type 0 where
  error warning : Severity

-- What a message says, with the values that it shows.
pub data Detail : Type 0 where
  unknown_type_token below_one not_a_date unknown_relationship : String → Detail
  empty_id namespace_missing : Detail
  duplicate_identity : String → Detail
  empty_filename : Detail
  token_mismatch : String → String → Detail
  not_versioned_name : String → Detail
  version_mismatch : ℕ → ℕ → Detail
  version_missing : String → Detail
  invalid_state_value : String → String → Detail
  phase_not_allowed : String → Detail
  invalid_phase : String → Detail
  state_not_owned : String → String → Detail
  state_missing : String → String → Detail
  malformed_reference : String → String → ReferenceError → Detail
  self_reference : String → String → Detail
  unresolved_draft : String → String → Detail
  unresolved : String → String → Detail
  dimension_not_allowed secondary_not_allowed dimension_missing : String → Detail
  unknown_dimension unknown_secondary : String → Detail
  no_dimension_folder : String → Detail
  folder_mismatch : String → String → Detail
  log_missing : List String → Detail
  log_phase_not_allowed : ℕ → String → Detail
  log_not_owned : ℕ → String → Detail
  log_unknown_domain : ℕ → String → Detail
  log_bad_from log_bad_to : ℕ → String → String → Detail
  log_no_authority : ℕ → Detail
  log_no_entry : String → String → Detail
  log_last_differs : String → String → String → Detail
  log_illegal : ℕ → String → String → String → Detail
  section_missing : String → String → Detail
  no_replacement : String → Detail
  no_higher_stratum : String → Detail
  unknown_domain_name : String → Detail
  domain_mismatch : String → String → Detail
  cross_stratum : String → String → Detail
  discusses_unresolved replies_unresolved replies_not_note : String → Detail
  several_parents several_members : ℕ → Detail
  assigned_not_member assigned_unresolved assigned_elsewhere : String → Detail
  header_missing : Detail
  no_container : Detail
  bad_separator no_state_column : Detail
  short_row : List String → Detail
  row_unresolved : String → Detail
  row_invalid row_differs : String → String → Detail
  not_structured role_missing : Detail
  unknown_role : String → Detail
  key_not_allowed : String → String → Detail
  text_required list_required list_malformed : String → Detail
  bad_verdict : Detail
  review_gate : Detail
  done_gate : List String → Detail

-- `Result`
pub record Finding : Type 0 where
  pub file : String
  pub rule : String
  pub severity : Severity
  pub detail : Detail

pub record Engine : Type 0 where
  pub artifacts : List Artifact
  pub skip_location : Bool
  pub cko_resolve : Option (Reference → Bool)
  pub draft_ref : Option (Reference → Bool)

unfoldable pub finding : Artifact → String → Severity → Detail → Finding
finding a rule severity detail = record {
  file = a.rel_path;
  rule = rule;
  severity = severity;
  detail = detail;
}

-- One finding where the test holds.
unfoldable pub finding_if : Bool → Artifact → String → Severity → Detail → List Finding
unfolding finding
finding_if test a rule severity detail = if test then finding a rule severity detail ∷ [] else []

-- The instances of a line, the lowest version first: a bucket of `byLine`.
unfoldable pub bucket : List Artifact → String → String → String → List Artifact
bucket artifacts ns ty id =
    sort (λ (a b : Artifact). ltb a.instance_version b.instance_version)
      (filter (λ a. same_identity a ns ty id) artifacts)

abbrev pub first_artifact : List Artifact → Option Artifact
first_artifact [] = none
first_artifact (a ∷ rest) = some a

-- `resolve`, of the engine and of the graph pass.
unfoldable pub resolve_in : List Artifact → Reference → Option Artifact
resolve_in artifacts r =
    if r.has_version
    then find (λ a. eqb a.instance_version r.version) (bucket artifacts r.namespace r.ty r.id)
    else first_artifact (bucket artifacts r.namespace r.ty r.id)

unfoldable pub resolve_ref : Engine → Reference → Bool
resolve_ref e r = elim e.cko_resolve [
  | none ↦ is_some (resolve_in e.artifacts r)
  | some resolves ↦ resolves r
]
