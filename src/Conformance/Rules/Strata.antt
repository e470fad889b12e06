-- ===== src/Conformance/Rules/Strata.antt =====
-- conformance/rules_domain.go: R10 to R12, the strata of the Engineering Domains.
pub mod Chain
pub mod Fuel
use eka_core.Base.{
  ℕ, zero, suc, String, Bool, true, false, not, ◌||◌, Option, none, some, List, [], ◌∷◌, ◌++◌, ltb,
  eqb, ◌==◌, if◌then◌else◌, length, flat_map, contains, ok, err, ◌⊕◌, itoa,
}
use eka_core.Conformance.State.{domain_content_state, is_known_type}
use eka_core.Conformance.Domain.{Domain, domain_name, domain_for_token, stratum, is_domain}
use eka_core.Conformance.Reference.{parse_reference, line_form}
use eka_core.Conformance.Artifact.{Artifact, state_of, relation}
use eka_core.Conformance.Engine.{
  Finding, Engine, finding, finding_if, resolve_in, error, warning, no_higher_stratum,
  unknown_domain_name, domain_mismatch, cross_stratum,
}

-- The artifacts that the references of a relationship resolve to, in order.
unfoldable pub targets_of : List Artifact → Artifact → List String → List Artifact
unfolding parse_reference resolve_in
targets_of artifacts a [] = []
targets_of artifacts a (raw ∷ raws) =
    let later = targets_of artifacts a raws in
    elim (parse_reference raw a.namespace a.ty) [
      | err bad ↦ later
      | ok r ↦ elim (resolve_in artifacts r) [ none ↦ later | some target ↦ target ∷ later ]
    ]

-- The edges that a chain follows.
unfoldable pub chain_targets : List Artifact → Artifact → List Artifact
unfolding relation targets_of
chain_targets artifacts a =
    targets_of artifacts a (relation "derives-from" a)
    ++ targets_of artifacts a (relation "depends-on" a)

unfoldable pub is_above : Domain → Domain → Bool
unfolding stratum
is_above d home = ltb (stratum d) (stratum home)

-- The targets of one artifact, into the visited artifacts and the queue; `none` is the return that a
-- target in a higher stratum causes.
unfoldable pub visit :
    Domain → List String → List Artifact → List Artifact → Option (List String × List Artifact)
unfolding contains domain_for_token is_above
visit home visited queue [] = some (visited, queue)
visit home visited queue (target ∷ targets) =
    let skip = visit home visited queue targets in
    let enter = visit home (target.rel_path ∷ visited) (queue ++ target ∷ []) targets in
    if contains visited target.rel_path then skip else elim (domain_for_token target.ty) [
      | none ↦ skip
      | some d ↦ if is_above d home then none else enter
    ]

-- The walk, on fuel; `none` is fuel that ran out.
unfoldable pub reaches_above :
    ℕ → Domain → List Artifact → List String → List Artifact → Option Bool
unfolding visit chain_targets
reaches_above zero home artifacts visited queue = none
reaches_above (suc fuel) home artifacts visited [] = some false
reaches_above (suc fuel) home artifacts visited (a ∷ queue) =
    elim (visit home visited queue (chain_targets artifacts a)) [
      | none ↦ some true
      | some (visited', queue') ↦ reaches_above fuel home artifacts visited' queue'
    ]

-- Each round takes one artifact of the queue, and each enters it once.
unfoldable pub has_higher_chain : List Artifact → Domain → Artifact → Option Bool
unfolding reaches_above
has_higher_chain artifacts home a =
    reaches_above (suc (suc (length artifacts))) home artifacts (a.rel_path ∷ []) (a ∷ [])

abbrev pub exempt_tokens : List String
exempt_tokens = "tkt" ∷ "ses" ∷ "cmt" ∷ "mbr" ∷ []

unfoldable pub rule10 : Engine → Artifact → List Finding
unfolding is_known_type domain_for_token stratum contains state_of has_higher_chain finding
rule10 e a = if not (is_known_type a.ty) then [] else elim (domain_for_token a.ty) [
  | none ↦ []
  | some home ↦
      if eqb (stratum home) 1
        || (contains exempt_tokens a.ty || state_of domain_content_state a == "draft")
      then []
      else elim (has_higher_chain e.artifacts home a) [
        | some reached ↦
            if reached
            then []
            else finding a "R10" warning (no_higher_stratum (domain_name home)) ∷ []
        | none ↦ []
      ]
]

-- The home domain of a type that has none is "".
home_name : String → String
unfolding domain_for_token domain_name
home_name ty = elim (domain_for_token ty) [ none ↦ "" | some d ↦ domain_name d ]

unfoldable pub rule11 : Artifact → List Finding
unfolding is_known_type is_domain home_name finding finding_if
rule11 a =
    if a.domain == "" || not (is_known_type a.ty)
    then []
    else if not (is_domain a.domain)
    then finding a "R11" error (unknown_domain_name a.domain) ∷ []
    else if a.ty == "cmt"
    then []
    else finding_if (not (a.domain == home_name a.ty)) a "R11" error
        (domain_mismatch a.domain (home_name a.ty))

identity_form : Artifact → String
unfolding line_form itoa
identity_form a = line_form a.namespace a.ty a.id ⊕ (":" ⊕ itoa a.instance_version)

unfoldable pub supersession_findings : Domain → Artifact → String → Artifact → List Finding
unfolding domain_for_token is_above identity_form finding_if
supersession_findings home a name target = elim (domain_for_token target.ty) [
  | none ↦ []
  | some d ↦ finding_if (is_above d home) a "R12" error (cross_stratum name (identity_form target))
]

unfoldable pub rule12 : Engine → Artifact → List Finding
unfolding is_known_type domain_for_token flat_map supersession_findings targets_of relation
rule12 e a = if not (is_known_type a.ty) then [] else elim (domain_for_token a.ty) [
  | none ↦ []
  | some home ↦
      flat_map
        (λ name.
          flat_map (supersession_findings home a name) (targets_of e.artifacts a (relation name a)))
        ("supersedes" ∷ "amends" ∷ [])
]
