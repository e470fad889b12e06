-- ===== src/Conformance/Rules/Dimension.antt =====
-- conformance/rules.go: R6, the dimension and its folder.
use eka_core.Base.{
  String, Bool, true, false, not, Option, none, some, List, [], ◌∷◌, ◌++◌, ◌==◌, if◌then◌else◌,
  flat_map, lookup, contains,
}
use eka_core.Conformance.State.{type_tokens}
use eka_core.Conformance.Vocabulary.{projection_types, is_dimension, dimension_folder_for}
use eka_core.Conformance.Artifact.{Artifact}
use eka_core.Conformance.Engine.{
  Finding, Engine, finding, finding_if, error, dimension_not_allowed, secondary_not_allowed,
  dimension_missing, unknown_dimension, unknown_secondary, no_dimension_folder, folder_mismatch,
}

unfoldable pub is_knowledge_type : String → Option Bool
unfolding lookup type_tokens
is_knowledge_type ty = elim (lookup ty type_tokens) [
  | none ↦ none
  | some info ↦ some info.is_knowledge
]

abbrev has_items : List String → Bool
has_items [] = false
has_items (x ∷ xs) = true

unfoldable pub location_findings : Artifact → List Finding
unfolding dimension_folder_for finding finding_if
location_findings a = elim (dimension_folder_for a.folders) [
  | none ↦ finding a "R6" error (no_dimension_folder a.dimension) ∷ []
  | some folder ↦
      finding_if (not (a.dimension == folder)) a "R6" error (folder_mismatch a.dimension folder)
]

unfoldable pub dimension_findings : Engine → Artifact → List Finding
unfolding is_dimension location_findings flat_map finding finding_if
dimension_findings e a =
    if not a.has_dimension
    then finding a "R6" error (dimension_missing a.ty) ∷ []
    else finding_if (not (is_dimension a.dimension)) a "R6" error (unknown_dimension a.dimension)
      ++ ((if e.skip_location then [] else location_findings a)
          ++ flat_map (λ d. finding_if (not (is_dimension d)) a "R6" error (unknown_secondary d))
              a.dimensions_secondary)

unfoldable pub rule6 : Engine → Artifact → List Finding
unfolding contains is_knowledge_type dimension_findings finding_if
rule6 e a =
    if contains projection_types a.ty
    then finding_if a.has_dimension a "R6" error (dimension_not_allowed a.ty)
      ++ finding_if (has_items a.dimensions_secondary) a "R6" error (secondary_not_allowed a.ty)
    else elim (is_knowledge_type a.ty) [
      | none ↦ []
      | some knowledge ↦ if knowledge then dimension_findings e a else []
    ]
