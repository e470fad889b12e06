-- ===== src/Exchange/References.antt =====
-- exchange/resolver.go and `checkReferences` of exchange/import.go: the relationships of a package.
pub mod Admitted
use eka_core.Base.{
  String, Bool, true, not, List, [], ◌∷◌, ◌++◌, map, ◌==◌, if◌then◌else◌, contains, Result, ◌>>=◌,
  ok, err, ◌⊕◌, text_below, sort,
}
use eka_core.Exchange.{Relationship, KnowledgeUnit}

pub record ExternalReference : Type 0 where
  pub source : String
  pub ty : String
  pub target : String

-- `newRelationshipResolver`: the forms that the package and the target hold, and the keys of the
-- declarations.
pub record RelationshipResolver : Type 0 where
  pub pkg_units : List String
  pub target_forms : List String
  pub declarations : List String

unfoldable pub decl_key : String → String → String → String
decl_key source ty target = source ⊕ ("\0" ⊕ (ty ⊕ ("\0" ⊕ target)))

unfoldable pub resolver_of :
    List KnowledgeUnit → List ExternalReference → List String → RelationshipResolver
unfolding decl_key
resolver_of units declared target = record {
  pkg_units = map (λ (u : KnowledgeUnit). u.canonical_identity_form) units;
  target_forms = target;
  declarations = map (λ (d : ExternalReference). decl_key d.source d.ty d.target) declared;
}

-- `resolution`
pub record Resolution : Type 0 where
  pub resolved : Bool
  pub declared : Bool

unfoldable pub is_declared : RelationshipResolver → String → String → String → Bool
unfolding contains decl_key
is_declared r source ty target = contains r.declarations (decl_key source ty target)

unfoldable pub resolve_relationship : RelationshipResolver → String → String → String → Resolution
unfolding contains is_declared
resolve_relationship r source ty target = record {
  resolved = if contains r.pkg_units target then true else contains r.target_forms target;
  declared = is_declared r source ty target;
}

unfoldable pub is_draft : KnowledgeUnit → Bool
is_draft u = u.state_vector.content_state == "draft"

-- A relationship that a message names.
pub record Unresolved : Type 0 where
  pub source : String
  pub rel : Relationship

pub data ImportRefusal : Type 0 where
  package_invalid : Unresolved → ImportRefusal
  unresolved_relationships : List Unresolved → ImportRefusal

-- The body of the inner loop: the warnings and the failures that it appends.
unfoldable pub check_relationship :
    RelationshipResolver
    → KnowledgeUnit
    → Relationship
    → Result ImportRefusal (List Unresolved × List Unresolved)
unfolding resolve_relationship is_draft
check_relationship r u rel =
    let res = resolve_relationship r u.canonical_identity_form rel.ty rel.target in
    let named : Unresolved = record { source = u.canonical_identity_form; rel = rel } in
    if res.resolved
    then ok ([], [])
    else if not res.declared
    then err (package_invalid named)
    else if is_draft u
    then ok (named ∷ [], [])
    else ok ([], named ∷ [])

unfoldable pub check_relationships :
    RelationshipResolver
    → KnowledgeUnit
    → List Relationship
    → Result ImportRefusal (List Unresolved × List Unresolved)
unfolding check_relationship
check_relationships r u [] = ok ([], [])
check_relationships r u (rel ∷ rels) =
    let rest = check_relationships r u rels in
    check_relationship r u rel >>= λ (w, f). rest >>= λ (ws, fs). ok (w ++ ws, f ++ fs)

unfoldable pub check_units :
    RelationshipResolver
    → List KnowledgeUnit
    → Result ImportRefusal (List Unresolved × List Unresolved)
unfolding check_relationships
check_units r [] = ok ([], [])
check_units r (u ∷ us) =
    let rest = check_units r us in
    check_relationships r u u.relationships >>= λ (w, f). rest >>= λ (ws, fs). ok (w ++ ws, f ++ fs)

-- `render` gives the texts by which both lists are sorted.
unfoldable pub check_references :
    (Unresolved → String)
    → List KnowledgeUnit
    → List ExternalReference
    → List String
    → Result ImportRefusal (List Unresolved)
unfolding resolver_of check_units sort
check_references render units declared target =
    let by_text : Unresolved → Unresolved → Bool = λ a b. text_below (render a) (render b) in
    check_units (resolver_of units declared target) units >>= λ (warnings, failures).
    elim failures [
      | [] ↦ ok (sort by_text warnings)
      | f ∷ fs ↦ err (unresolved_relationships (sort by_text (f ∷ fs)))
    ]
