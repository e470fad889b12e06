-- ===== src/Tests/References.antt =====
-- Runs of the check of a package's references (exchange/import.go).
use eka_core.Base.{String, ◌≡◌, refl, ◌↔◌, List, [], ◌∷◌, All, contains, ok, err, sort}
use eka_core.Exchange.{Relationship, KnowledgeUnit}
use eka_core.Exchange.References.{
  ExternalReference, decl_key, resolver_of, is_declared, resolve_relationship, is_draft, Unresolved,
  check_relationship, check_relationships, check_units, check_references, package_invalid,
  unresolved_relationships,
}
use eka_core.Exchange.References.Admitted.{IsAdmitted, check_references_iff}
use eka_core.Tests.Data.{old_adr}

abbrev outside : Relationship
outside = record { ty = "depends-on"; target = "other/dec:base:1" }

abbrev declaration : ExternalReference
declaration = record { source = "acme/adr:a1:1"; ty = "depends-on"; target = "other/dec:base:1" }

abbrev holder : String → KnowledgeUnit
holder content_state = record old_adr {
  canonical_identity_form = "acme/adr:a1:1";
  state_vector = record (old_adr.state_vector) { content_state = content_state };
  relationships = outside ∷ [];
}

abbrev carried : List KnowledgeUnit
carried = holder "draft" ∷ []

abbrev shown : Unresolved → String
shown x = x.source

check_references_iff_example :
    ((ws : List Unresolved) × (check_references shown carried (declaration ∷ []) [] ≡ ok ws))
    ↔ All
        (λ (u : KnowledgeUnit).
          All (IsAdmitted (resolver_of carried (declaration ∷ []) []) u) u.relationships)
        carried
check_references_iff_example = check_references_iff shown carried (declaration ∷ []) []

-- A declared target is a warning on a draft and a failure otherwise; an undeclared one refuses the
-- package; a target that is held passes.
abbrev named : Unresolved
named = record { source = "acme/adr:a1:1"; rel = outside }

check_runs :
    (check_references shown carried (declaration ∷ []) [] ≡ ok (named ∷ []))
    × (check_references shown (holder "accepted" ∷ []) (declaration ∷ []) []
        ≡ err (unresolved_relationships (named ∷ [])))
    × (check_references shown carried [] [] ≡ err (package_invalid named))
    × (check_references shown carried [] ("other/dec:base:1" ∷ []) ≡ ok [])
unfolding check_references check_units check_relationships check_relationship resolver_of
    resolve_relationship is_declared is_draft decl_key contains sort
check_runs = (refl, refl, refl, refl)
