-- ===== src/Conformance/Vocabulary.antt =====
-- conformance/state.go and conformance/rules.go: the vocabularies that the rules check against.
use eka_core.Base.{
  String, Bool, Option, none, some, List, [], ◌∷◌, ◌==◌, if◌then◌else◌, find, contains,
}
use eka_core.Conformance.State.{
  domain_content_state, domain_execution_state, domain_planning_state, domain_container_state,
  domain_existence_state, domain_note_state,
}

abbrev pub state_fields : List String
state_fields =
    domain_content_state ∷ domain_execution_state ∷ domain_planning_state ∷ domain_container_state
    ∷ domain_existence_state ∷ domain_note_state ∷ []

abbrev pub projection_types : List String
projection_types = "ctr" ∷ "tkt" ∷ "ses" ∷ []

abbrev pub dimension_tokens : List String
dimension_tokens =
    "intent" ∷ "requirements" ∷ "architecture" ∷ "decisions" ∷ "specifications" ∷ "standards"
    ∷ "operations" ∷ "quality" ∷ "planning" ∷ "records" ∷ "research" ∷ "vocabulary" ∷ []

unfoldable pub is_dimension : String → Bool
unfolding contains
is_dimension d = contains dimension_tokens d

-- The nearest directory that is named as a dimension, in a list with the nearest first.
unfoldable pub dimension_folder_for : List String → Option String
unfolding find is_dimension
dimension_folder_for folders = find is_dimension folders

-- The sections of a type; `none` is a type that has no table row.
unfoldable pub required_sections_for : String → Option (List String)
unfolding contains
required_sections_for ty =
    if contains ("scp" ∷ "epc" ∷ "plan" ∷ "trc" ∷ []) ty
    then some ("Objective" ∷ "Scope" ∷ "Out of Scope" ∷ [])
    else if contains ("sto" ∷ "ts" ∷ "ch" ∷ []) ty
    then some ("Description" ∷ "Acceptance Criteria" ∷ [])
    else if ty == "bug"
    then some ("Description" ∷ "Impact" ∷ [])
    else if ty == "td"
    then some ("Description" ∷ "Acceptance Criteria" ∷ "Debt Rationale" ∷ [])
    else if ty == "spk"
    then some ("Description" ∷ "Investigation Notes" ∷ "Conclusion" ∷ [])
    else if contains ("adr" ∷ "dec" ∷ []) ty
    then some ("Context" ∷ "Decision" ∷ "Consequences" ∷ "Alternatives Considered" ∷ [])
    else if contains
        ("vis" ∷ "str" ∷ "req" ∷ "arc" ∷ "spec" ∷ "std" ∷ "run" ∷ "rel" ∷ "shr" ∷ "gls" ∷ "mbr"
          ∷ [])
        ty
    then some ("Purpose" ∷ "Content" ∷ [])
    else if ty == "fnd"
    then some ("Purpose" ∷ "Content" ∷ "Investigation Summary" ∷ "Conclusion" ∷ [])
    else if ty == "rvw"
    then some ("Purpose" ∷ "Content" ∷ "Findings" ∷ "Action Items" ∷ [])
    else if ty == "ctr"
    then some ("Objective" ∷ "Work Items" ∷ "Change Log" ∷ [])
    else if ty == "tkt"
    then some ("Commands" ∷ "Projected Status" ∷ [])
    else if ty == "ses"
    then some ("Context" ∷ "Notes" ∷ "Verification" ∷ [])
    else none
