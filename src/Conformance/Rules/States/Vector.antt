-- ===== src/Conformance/Rules/States/Vector.antt =====
-- R3 and R4 against their meaning: the state fields are exactly the owned domains, each with a value
-- of its domain.
use eka_core.Base.{
  String, ◌≡◌, refl, ◌↔◌, inl, inr, true, not, [], Bool-cases, Member, All, flat_map, lookup,
  is_some, contains, contains_iff,
}
use eka_core.Conformance.State.{
  phase_values, domain_values, owned_domains, is_known_type, is_versioned_type,
}
use eka_core.Conformance.Artifact.{Artifact}
use eka_core.Conformance.Engine.{
  error, invalid_state_value, invalid_phase, state_not_owned, state_missing,
}
use eka_core.Conformance.Rules.Clean.{
  append-eq-nil, flat_map-eq-nil, finding_if-eq-nil, All-iff, not-eq-false, All-both,
}
use eka_core.Conformance.Rules.States.{
  value_findings, phase_findings, rule3, unowned_findings, missing_findings, rule4,
}

-- A field of a domain that the type owns, with one of its values.
abbrev pub IsTypedField : Artifact → String × String → Type 0
IsTypedField a row = Member row.1 (domain_values row.0 a.ty) × Member row.0 (owned_domains a.ty)

abbrev pub HasField : Artifact → String → Type 0
HasField a domain = is_some (lookup domain a.states) ≡ true

-- A phase key stands only on a versioned type, with a value of the table.
abbrev pub IsTypedPhase : Artifact → Type 0
IsTypedPhase a =
    a.has_phase_key ≡ true → (is_versioned_type a.ty ≡ true) × Member a.phase phase_values

value_findings-eq-nil :
    (a : Artifact) (row : String × String)
    → value_findings a row ≡ [] ↔ Member row.1 (domain_values row.0 a.ty)
unfolding value_findings
value_findings-eq-nil a (domain, value) =
    let clean =
      finding_if-eq-nil (not (contains (domain_values domain a.ty) value)) a "R3" error
        (invalid_state_value domain value) in
    let test = contains_iff (domain_values domain a.ty) value in
    (λ e. test.0 ((not-eq-false _).0 (clean.0 e)), λ m. clean.1 ((not-eq-false _).1 (test.1 m)))

unowned_findings-eq-nil :
    (a : Artifact) (row : String × String)
    → unowned_findings a row ≡ [] ↔ Member row.0 (owned_domains a.ty)
unfolding unowned_findings
unowned_findings-eq-nil a (domain, value) =
    let clean =
      finding_if-eq-nil (not (contains (owned_domains a.ty) domain)) a "R4" error
        (state_not_owned domain a.ty) in
    let test = contains_iff (owned_domains a.ty) domain in
    (λ e. test.0 ((not-eq-false _).0 (clean.0 e)), λ m. clean.1 ((not-eq-false _).1 (test.1 m)))

missing_findings-eq-nil :
    (a : Artifact) (domain : String) → missing_findings a domain ≡ [] ↔ HasField a domain
unfolding missing_findings
missing_findings-eq-nil a domain =
    let clean =
      finding_if-eq-nil (not (is_some (lookup domain a.states))) a "R4" error
        (state_missing domain a.ty) in
    (λ e. (not-eq-false _).0 (clean.0 e), λ m. clean.1 ((not-eq-false _).1 m))

phase_findings-eq-nil : (a : Artifact) → phase_findings a ≡ [] ↔ IsTypedPhase a
unfolding phase_findings
phase_findings-eq-nil a = elim (Bool-cases a.has_phase_key) [
  | inr absent ↦ rw (absent, phase_findings) (λ e key. absurd (cc), λ p. refl)
  | inl key ↦ elim (Bool-cases (is_versioned_type a.ty)) [
    | inr plain ↦ rw (key, plain, phase_findings) (λ e. absurd (cc), λ p. absurd (cc ((p refl).0)))
    | inl versioned ↦
        let clean =
          finding_if-eq-nil (not (contains phase_values a.phase)) a "R3" error
            (invalid_phase a.phase) in
        let test = contains_iff phase_values a.phase in
        rw (key, versioned, phase_findings)
          (
            λ e k. (refl, test.0 ((not-eq-false _).0 (clean.0 e))),
            λ p. clean.1 ((not-eq-false _).1 (test.1 (p refl).1)),
          )
  ]
]

-- R3 and R4 report nothing on an artifact of a known type exactly if every state field has a value of
-- its domain and stands for a domain that the type owns, every owned domain has a field, and a phase
-- stands only on a versioned type with a value of the phase table.
pub state_rules_iff :
    (a : Artifact)
    → is_known_type a.ty ≡ true
    → ((rule3 a ≡ []) × (rule4 a ≡ []))
      ↔ (All (IsTypedField a) a.states × All (HasField a) (owned_domains a.ty) × IsTypedPhase a)
unfolding rule3 rule4
state_rules_iff a known =
    let fields = append-eq-nil (flat_map (value_findings a) a.states) (phase_findings a) in
    let owners =
      append-eq-nil (flat_map (unowned_findings a) a.states)
        (flat_map (missing_findings a) (owned_domains a.ty)) in
    let values = All-iff (value_findings-eq-nil a) a.states in
    let owned = All-iff (unowned_findings-eq-nil a) a.states in
    let present = All-iff (missing_findings-eq-nil a) (owned_domains a.ty) in
    let both =
      All-both (λ row. Member row.1 (domain_values row.0 a.ty))
        (λ row. Member row.0 (owned_domains a.ty)) a.states in
    let rows = flat_map-eq-nil (value_findings a) a.states in
    let owned_rows = flat_map-eq-nil (unowned_findings a) a.states in
    let missing = flat_map-eq-nil (missing_findings a) (owned_domains a.ty) in
    rw (known, rule4)
      (
        λ (e, f).
            let (v, p) = fields.0 e in
            let (o, m) = owners.0 f in
            (
              both.1 (values.0 (rows.0 v), owned.0 (owned_rows.0 o)),
              present.0 (missing.0 m),
              (phase_findings-eq-nil a).0 p,
            ),
        λ (typed, has, p). (
          fields.1 (rows.1 (values.1 (both.0 typed).0), (phase_findings-eq-nil a).1 p),
          owners.1 (owned_rows.1 (owned.1 (both.0 typed).1), missing.1 (present.1 has)),
        ),
      )
