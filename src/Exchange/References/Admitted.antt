-- ===== src/Exchange/References/Admitted.antt =====
-- `checkReferences` of exchange/import.go: which packages pass it.
use Prim.{tt}
use eka_core.Base.{
  String, ◌≡◌, refl, ap, ◌↔◌, ◌⊎◌, inl, inr, true, List, [], ◌∷◌, ◌++◌, arith, Bool-cases, All,
  append-eq-nil, contains, Result, ◌>>=◌, Result-cases, eq_of_ok-eq-ok, ok, err, text_below, sort,
}
use eka_core.Exchange.{Relationship, KnowledgeUnit}
use eka_core.Exchange.References.{
  ExternalReference, RelationshipResolver, resolver_of, is_declared, resolve_relationship, is_draft,
  Unresolved, ImportRefusal, check_relationship, check_relationships, check_units, check_references,
}

-- Carried by the package, held by the target, or declared as external by a draft.
abbrev pub IsAdmitted : RelationshipResolver → KnowledgeUnit → Relationship → Type 0
IsAdmitted r u rel =
    (contains r.pkg_units rel.target ≡ true)
    ⊎ ((contains r.target_forms rel.target ≡ true)
        ⊎ ((is_declared r u.canonical_identity_form rel.ty rel.target ≡ true)
            × (is_draft u ≡ true)))

-- The result has no failure.
abbrev IsClean : Result ImportRefusal (List Unresolved × List Unresolved) → Type 0
IsClean m = (ws : List Unresolved) × (m ≡ ok (ws, []))

check_relationship_iff :
    (r : RelationshipResolver) (u : KnowledgeUnit) (rel : Relationship)
    → IsClean (check_relationship r u rel) ↔ IsAdmitted r u rel
unfolding check_relationship resolve_relationship
check_relationship_iff r u rel = elim (Bool-cases (contains r.pkg_units rel.target)) [
  | inl here ↦ rw here (λ e. inl refl, λ a. ([], refl))
  | inr absent ↦ elim (Bool-cases (contains r.target_forms rel.target)) [
    | inl there ↦ rw (absent, there) (λ e. inr (inl refl), λ a. ([], refl))
    | inr gone ↦ elim (Bool-cases (is_declared r u.canonical_identity_form rel.ty rel.target)) [
      | inr not_declared ↦
          rw (absent, gone, not_declared) (λ (ws, e). absurd (cc), λ a. ground arith)
      | inl declared ↦ elim (Bool-cases (is_draft u)) [
        | inl draft ↦
            rw (absent, gone, declared, draft) (λ e. inr (inr (refl, refl)), λ a. (_, refl))
        | inr final ↦ rw (absent, gone, declared, final) (λ (ws, e). absurd (cc), λ a. ground arith)
      ]
    ]
  ]
]

IsClean-ok : (w f : List Unresolved) → IsClean (ok (w, f)) ↔ (f ≡ [])
IsClean-ok w f = (
  λ (v, h). ap (λ (p : List Unresolved × List Unresolved). p.1) (eq_of_ok-eq-ok (w, f) (v, []) h),
  λ e. (w, rw e refl),
)

-- Two checks in a row.
IsClean-both :
    (a b : Result ImportRefusal (List Unresolved × List Unresolved))
    → IsClean (a >>= λ (w, f). b >>= λ (ws, fs). ok (w ++ ws, f ++ fs)) ↔ (IsClean a × IsClean b)
IsClean-both (err e) b = (λ (ws, h). absurd (cc), λ ((ws, h), k). absurd (cc))
IsClean-both (ok (w, f)) (err e) = (λ (ws, h). absurd (cc), λ (k, (ws, h)). absurd (cc))
IsClean-both (ok (w, f)) (ok (ws, fs)) = (
  λ both.
      let (a, b) = (append-eq-nil f fs).0 ((IsClean-ok (w ++ ws) (f ++ fs)).0 both) in
      ((IsClean-ok w f).1 a, (IsClean-ok ws fs).1 b),
  λ (first, rest).
      (IsClean-ok (w ++ ws) (f ++ fs)).1
        ((append-eq-nil f fs).1 ((IsClean-ok w f).0 first, (IsClean-ok ws fs).0 rest)),
)

check_relationships_iff :
    (r : RelationshipResolver) (u : KnowledgeUnit) (rels : List Relationship)
    → IsClean (check_relationships r u rels) ↔ All (IsAdmitted r u) rels
unfolding check_relationships
check_relationships_iff r u [] = (λ c. tt, λ a. ([], refl))
check_relationships_iff r u (rel ∷ rels) =
    let both = IsClean-both (check_relationship r u rel) (check_relationships r u rels) in
    let one = check_relationship_iff r u rel in
    let rest = check_relationships_iff r u rels in
    (λ c. (one.0 (both.0 c).0, rest.0 (both.0 c).1), λ (a, later). both.1 (one.1 a, rest.1 later))

check_units_iff :
    (r : RelationshipResolver) (us : List KnowledgeUnit)
    → IsClean (check_units r us)
      ↔ All (λ (u : KnowledgeUnit). All (IsAdmitted r u) u.relationships) us
unfolding check_units
check_units_iff r [] = (λ c. tt, λ a. ([], refl))
check_units_iff r (u ∷ us) =
    let both = IsClean-both (check_relationships r u u.relationships) (check_units r us) in
    let one = check_relationships_iff r u u.relationships in
    let rest = check_units_iff r us in
    (λ c. (one.0 (both.0 c).0, rest.0 (both.0 c).1), λ (a, later). both.1 (one.1 a, rest.1 later))

-- An import passes the check of its references exactly if each relationship of each unit of the
-- package names a unit of the package or of the target, or is declared as external by a draft.
pub check_references_iff :
    (render : Unresolved → String) (units : List KnowledgeUnit) (declared : List ExternalReference)
    (target : List String)
    → ((ws : List Unresolved) × (check_references render units declared target ≡ ok ws))
      ↔ All
          (λ (u : KnowledgeUnit).
            All (IsAdmitted (resolver_of units declared target) u) u.relationships)
          units
unfolding check_references
check_references_iff render units declared target =
    let clean = check_units_iff (resolver_of units declared target) units in
    elim (Result-cases (check_units (resolver_of units declared target) units)) [
      | inl ((w, []), e) ↦ (
        λ c. clean.0 (w, e),
        λ a. (sort (λ (x y : Unresolved). text_below (render x) (render y)) w, rw e refl),
      )
      | inl ((w, f ∷ fs), e) ↦ (
        λ (ws, h). absurd (cc (rw e at h)),
        λ a. absurd (cc ((IsClean-ok w (f ∷ fs)).0 (rw e at (clean.1 a)))),
      )
      | inr (why, e) ↦
          (λ (ws, h). absurd (cc (rw e at h)), λ a. absurd (cc (rw e at ((clean.1 a).1))))
    ]
