-- ===== src/Exchange/Conflict.antt =====
-- exchange/conflict.go: the verdicts of an import on the units and attachments of a package.
pub mod Refusal
pub mod Aspects
use eka_core.Base.{
  String, Bool, true, false, ◌&&◌, Option, none, some, List, [], ◌∷◌, ◌++◌, eqb, ◌==◌,
  if◌then◌else◌, text_below, sort,
}
use eka_core.Conformance.State.{
  domain_content_state, domain_execution_state, domain_planning_state, domain_container_state,
  domain_existence_state, domain_note_state,
}
use eka_core.Exchange.{
  AuthorIdentity, StateVector, ChangeLogEntry, Relationship, Classification, KnowledgeUnit,
}

-- An aspect in which two units differ; a state difference shows the domains of the package unit.
pub data Difference : Type 0 where
  content state_vector change_log relationships classification phase revision : Difference
  metadata : Difference
  state_domains : List String → Difference
  unreadable_file attachment_content : Difference

pub record ConflictDetail : Type 0 where
  pub identity : String
  pub differences : List Difference

unfoldable pub same_author : AuthorIdentity → AuthorIdentity → Bool
same_author a b = a.kind == b.kind && a.name == b.name

unfoldable pub same_vector : StateVector → StateVector → Bool
same_vector v w =
    v.content_state == w.content_state
    && (v.execution_state == w.execution_state
        && (v.planning_state == w.planning_state
            && (v.container_state == w.container_state
                && (v.existence_state == w.existence_state && v.note_state == w.note_state))))

unfoldable pub same_entry : ChangeLogEntry → ChangeLogEntry → Bool
unfolding same_author
same_entry a b =
    a.date == b.date
    && (a.domain == b.domain && (a.from == b.from && (a.to == b.to && same_author a.by b.by)))

unfoldable pub same_relationship : Relationship → Relationship → Bool
same_relationship a b = a.ty == b.ty && a.target == b.target

-- Two lists of one length whose items are the same in order.
unfoldable pub same_list : {A : Type 0} → (A → A → Bool) → List A → List A → Bool
same_list same [] [] = true
same_list same [] (b ∷ bs) = false
same_list same (a ∷ as') [] = false
same_list same (a ∷ as') (b ∷ bs) = let later = same_list same as' bs in same a b && later

unfoldable pub change_logs_equal : List ChangeLogEntry → List ChangeLogEntry → Bool
unfolding same_list same_entry
change_logs_equal a b = same_list same_entry a b

unfoldable pub relationships_equal : List Relationship → List Relationship → Bool
unfolding same_list same_relationship
relationships_equal a b = same_list same_relationship a b

unfoldable pub classifications_equal : Classification → Classification → Bool
unfolding same_list
classifications_equal a b =
    a.dimension == b.dimension
    && same_list (λ s t. s == t) a.dimensions_secondary b.dimensions_secondary

label : String → String → List String
label value domain = if value == "" then [] else domain ∷ []

unfoldable pub vector_difference : List String → Difference
vector_difference [] = state_vector
vector_difference (domain ∷ domains) = state_domains (domain ∷ domains)

-- The domains that have a value.
pub labels : StateVector → List String
unfolding label
labels v =
    label v.content_state domain_content_state
    ++ (label v.execution_state domain_execution_state
        ++ (label v.planning_state domain_planning_state
            ++ (label v.container_state domain_container_state
                ++ (label v.existence_state domain_existence_state
                    ++ label v.note_state domain_note_state))))

-- The aspects that are not the same, in the order of the checks.
unfoldable pub noted : List (Bool × Difference) → List Difference
noted [] = []
noted ((same, difference) ∷ checks) =
    let later = noted checks in if same then later else difference ∷ later

-- The checks of `unitDifferences`: whether an aspect is the same, and what is noted if not.
unfoldable pub checks : KnowledgeUnit → KnowledgeUnit → List (Bool × Difference)
unfolding same_vector vector_difference labels sort change_logs_equal relationships_equal
    classifications_equal same_author
checks p r =
    (p.content_payload == r.content_payload, content)
    ∷ (
      same_vector p.state_vector r.state_vector,
      vector_difference (sort text_below (labels p.state_vector)),
    )
    ∷ (change_logs_equal p.change_log r.change_log, change_log)
    ∷ (relationships_equal p.relationships r.relationships, relationships)
    ∷ (classifications_equal p.classification r.classification, classification)
    ∷ (p.phase == r.phase, phase)
    ∷ (eqb p.revision r.revision, revision)
    ∷ (
      same_author p.author r.author && (p.created == r.created && p.updated == r.updated),
      metadata,
    )
    ∷ []

unfoldable pub unit_differences : KnowledgeUnit → KnowledgeUnit → List Difference
unfolding noted checks
unit_differences p r = noted (checks p r)

-- The verdicts of an import; `attachments` are pairs of an id and its data.
pub record Verdicts : Type 0 where
  pub new_units : List KnowledgeUnit
  pub duplicate_forms : List String
  pub conflicts : List ConflictDetail
  pub new_attachments : List (String × String)
  pub duplicate_attachment : List String
  pub conflict_attachment : List ConflictDetail

-- What `os.ReadFile` of a target path gives.
pub data TargetFile : Type 0 where
  absent unreadable : TargetFile
  data_of : String → TargetFile

-- The units of a package against those of the target, in their order.
unfoldable pub classify_units :
    (String → Option KnowledgeUnit)
    → List KnowledgeUnit
    → List KnowledgeUnit × List String × List ConflictDetail
unfolding unit_differences
classify_units repo_unit [] = ([], [], [])
classify_units repo_unit (u ∷ us) =
    let (new, duplicates, conflicts) = classify_units repo_unit us in
    elim (repo_unit u.canonical_identity_form) [
      | none ↦ (u ∷ new, duplicates, conflicts)
      | some r ↦ elim (unit_differences u r) [
        | [] ↦ (new, u.canonical_identity_form ∷ duplicates, conflicts)
        | d ∷ ds ↦ (
          new,
          duplicates,
          record { identity = u.canonical_identity_form; differences = d ∷ ds } ∷ conflicts,
        )
      ]
    ]

attachment_conflict : String → Difference → ConflictDetail
attachment_conflict id d = record { identity = id; differences = d ∷ [] }

unfoldable pub classify_attachments :
    (String → TargetFile)
    → List (String × String)
    → List (String × String) × List String × List ConflictDetail
unfolding attachment_conflict
classify_attachments target_file [] = ([], [], [])
classify_attachments target_file ((id, bytes) ∷ rest) =
    let (new, duplicates, conflicts) = classify_attachments target_file rest in
    elim (target_file id) [
      | absent ↦ ((id, bytes) ∷ new, duplicates, conflicts)
      | unreadable ↦ (new, duplicates, attachment_conflict id unreadable_file ∷ conflicts)
      | data_of existing ↦
          if existing == bytes
          then (new, id ∷ duplicates, conflicts)
          else (new, duplicates, attachment_conflict id attachment_content ∷ conflicts)
    ]

conflict_order : ConflictDetail → ConflictDetail → Bool
conflict_order a b = text_below a.identity b.identity

unfoldable pub classify :
    (String → Option KnowledgeUnit)
    → (String → TargetFile)
    → List KnowledgeUnit
    → List (String × String)
    → Verdicts
unfolding classify_units classify_attachments sort conflict_order
classify repo_unit target_file units attachments =
    let (new, duplicates, conflicts) = classify_units repo_unit units in
    let (new_files, duplicate_files, conflict_files) =
      classify_attachments target_file attachments in
    record {
      new_units = new;
      duplicate_forms = duplicates;
      conflicts = sort conflict_order conflicts;
      new_attachments = new_files;
      duplicate_attachment = duplicate_files;
      conflict_attachment = sort conflict_order conflict_files;
    }
