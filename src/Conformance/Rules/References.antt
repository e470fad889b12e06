-- ===== src/Conformance/Rules/References.antt =====
-- conformance/rules.go: R5, the references of the relationships.
use eka_core.Base.{
  String, Bool, false, not, ◌&&◌, ◌||◌, none, some, List, [], ◌∷◌, eqb, ◌==◌, if◌then◌else◌,
  flat_map, ok, err,
}
use eka_core.Conformance.State.{domain_content_state, relationship_fields}
use eka_core.Conformance.Reference.{Reference, parse_reference}
use eka_core.Conformance.Artifact.{Artifact, state_of, relation, same_file}
use eka_core.Conformance.Engine.{
  Finding, Engine, finding, finding_if, resolve_in, resolve_ref, error, warning,
  malformed_reference, self_reference, unresolved_draft, unresolved,
}

-- The reference names the artifact itself, or its line.
unfoldable pub names_itself : Artifact → Reference → Bool
names_itself a r =
    (r.namespace == a.namespace && (r.ty == a.ty && r.id == a.id))
    && (not r.has_version || eqb r.version a.instance_version)

-- A line that exists as a draft of the project.
unfoldable pub is_draft_target : Engine → Reference → Bool
is_draft_target e r =
    not r.has_version && elim e.draft_ref [ none ↦ false | some is_draft ↦ is_draft r ]

unfoldable pub dangling_findings : Engine → Artifact → String → String → Reference → List Finding
unfolding is_draft_target state_of finding
dangling_findings e a name raw r =
    if is_draft_target e r
    then []
    else if state_of domain_content_state a == "draft"
    then finding a "R5" warning (unresolved_draft raw name) ∷ []
    else finding a "R5" error (unresolved raw name) ∷ []

unfoldable pub reference_findings : Engine → Artifact → String → String → List Finding
unfolding parse_reference names_itself resolve_ref resolve_in dangling_findings same_file finding
    finding_if
reference_findings e a name raw = elim (parse_reference raw a.namespace a.ty) [
  | err bad ↦ finding a "R5" error (malformed_reference raw name bad) ∷ []
  | ok r ↦ elim e.cko_resolve [
    | some resolves ↦
        if names_itself a r
        then finding a "R5" error (self_reference raw name) ∷ []
        else if resolve_ref e r
        then []
        else dangling_findings e a name raw r
    | none ↦ elim (resolve_in e.artifacts r) [
      | none ↦ dangling_findings e a name raw r
      | some target ↦ finding_if (same_file target a) a "R5" error (self_reference raw name)
    ]
  ]
]

unfoldable pub rule5 : Engine → Artifact → List Finding
unfolding flat_map relation reference_findings
rule5 e a =
    flat_map (λ name. flat_map (reference_findings e a name) (relation name a)) relationship_fields
