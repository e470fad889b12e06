-- ===== src/Conformance/Rules/States.antt =====
-- conformance/rules.go: R3, the state values, and R4, the owned domains.
pub mod Vector
use eka_core.Base.{
  String, not, List, [], ◌∷◌, ◌++◌, if◌then◌else◌, flat_map, lookup, is_some, contains,
}
use eka_core.Conformance.State.{
  phase_values, domain_values, owned_domains, is_known_type, is_versioned_type,
}
use eka_core.Conformance.Artifact.{Artifact}
use eka_core.Conformance.Engine.{
  Finding, finding, finding_if, error, invalid_state_value, phase_not_allowed, invalid_phase,
  state_not_owned, state_missing,
}

-- One field of the map.
unfoldable pub value_findings : Artifact → String × String → List Finding
unfolding contains domain_values finding_if
value_findings a (domain, value) =
    finding_if (not (contains (domain_values domain a.ty) value)) a "R3" error
      (invalid_state_value domain value)

unfoldable pub phase_findings : Artifact → List Finding
unfolding contains is_versioned_type finding finding_if
phase_findings a =
    if not a.has_phase_key
    then []
    else if not (is_versioned_type a.ty)
    then finding a "R3" error (phase_not_allowed a.ty) ∷ []
    else finding_if (not (contains phase_values a.phase)) a "R3" error (invalid_phase a.phase)

unfoldable pub rule3 : Artifact → List Finding
unfolding flat_map value_findings phase_findings
rule3 a = flat_map (value_findings a) a.states ++ phase_findings a

-- A field that the type does not own.
unfoldable pub unowned_findings : Artifact → String × String → List Finding
unfolding contains owned_domains finding_if
unowned_findings a (domain, value) =
    finding_if (not (contains (owned_domains a.ty) domain)) a "R4" error
      (state_not_owned domain a.ty)

-- An owned domain that has no field.
unfoldable pub missing_findings : Artifact → String → List Finding
unfolding lookup finding_if
missing_findings a domain =
    finding_if (not (is_some (lookup domain a.states))) a "R4" error (state_missing domain a.ty)

unfoldable pub rule4 : Artifact → List Finding
unfolding is_known_type owned_domains flat_map unowned_findings missing_findings
rule4 a =
    if is_known_type a.ty
    then flat_map (unowned_findings a) a.states
      ++ flat_map (missing_findings a) (owned_domains a.ty)
    else []
