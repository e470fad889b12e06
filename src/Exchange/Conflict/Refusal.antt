-- ===== src/Exchange/Conflict/Refusal.antt =====
-- When an import of a package is free of conflicts.
use eka_core.Base.{
  String, ◌≡◌, refl, ap, ◌↔◌, ◌⊎◌, inl, inr, Option, none, some, List, [], ◌∷◌, ◌==◌, Bool-cases,
  Option-cases, eq_of_==, ==_of_eq, not-both, All, List-cases, sort-eq-nil,
}
use eka_core.Exchange.{KnowledgeUnit}
use eka_core.Exchange.Conflict.{
  unit_differences, TargetFile, classify_units, classify_attachments, classify, absent, unreadable,
  data_of,
}
use eka_core.Exchange.Conflict.Aspects.{SameAspects, unit_differences-eq-nil}

-- The target has no unit of the form, or one that is equal in the aspects compared.
abbrev pub IsCompatible : (String → Option KnowledgeUnit) → KnowledgeUnit → Type 0
IsCompatible repo_unit u =
    (repo_unit u.canonical_identity_form ≡ none)
    ⊎ ((r : KnowledgeUnit) × (repo_unit u.canonical_identity_form ≡ some r) × SameAspects u r)

-- The target has no such file, or one with the same bytes.
abbrev pub IsCompatibleFile : (String → TargetFile) → String × String → Type 0
IsCompatibleFile target_file (id, bytes) =
    (target_file id ≡ absent) ⊎ (target_file id ≡ data_of bytes)

unit_conflicts-eq-nil :
    (repo_unit : String → Option KnowledgeUnit) (units : List KnowledgeUnit)
    → (classify_units repo_unit units).2 ≡ [] ↔ All (IsCompatible repo_unit) units
unfolding classify_units
unit_conflicts-eq-nil repo_unit [] = (λ e. tt, λ u. refl)
unit_conflicts-eq-nil repo_unit (u ∷ us) =
    let later = unit_conflicts-eq-nil repo_unit us in
    elim (Option-cases (repo_unit u.canonical_identity_form)) [
      | inl new ↦ rw (new, classify_units) (λ e. (inl refl, later.0 e), λ (c, rest). later.1 rest)
      | inr (r, there) ↦ elim (List-cases (unit_differences u r)) [
        | inl same ↦
            rw (there, same, classify_units)
              (
                λ e. (inr (r, refl, (unit_differences-eq-nil u r).0 same), later.0 e),
                λ (c, rest). later.1 rest,
              )
        | inr (d, ds, differ) ↦
            rw (there, differ, classify_units)
              (
                λ e. absurd (cc),
                λ (c, rest). elim c [
                  | inl bad ↦ absurd (cc)
                  | inr (x, e, payload) ↦
                      absurd (cc ((unit_differences-eq-nil u x).1 payload, differ, e))
                ],
              )
      ]
    ]

TargetFile-cases :
    (f : TargetFile) → (f ≡ absent) ⊎ (f ≡ unreadable) ⊎ ((bytes : String) × (f ≡ data_of bytes))
TargetFile-cases absent = inl refl
TargetFile-cases unreadable = inr (inl refl)
TargetFile-cases (data_of bytes) = inr (inr (bytes, refl))

file_conflicts-eq-nil :
    (target_file : String → TargetFile) (files : List (String × String))
    → (classify_attachments target_file files).2 ≡ [] ↔ All (IsCompatibleFile target_file) files
unfolding classify_attachments
file_conflicts-eq-nil target_file [] = (λ e. tt, λ u. refl)
file_conflicts-eq-nil target_file ((id, bytes) ∷ files) =
    let later = file_conflicts-eq-nil target_file files in
    elim (TargetFile-cases (target_file id)) [
      | inl new ↦
          rw (new, classify_attachments) (λ e. (inl refl, later.0 e), λ (c, rest). later.1 rest)
      | inr (inl closed) ↦
          rw (closed, classify_attachments)
            (
              λ e. absurd (cc),
              λ (c, rest). elim c [ inl bad ↦ absurd (cc) | inr bad ↦ absurd (cc) ],
            )
      | inr (inr (there, read)) ↦ elim (Bool-cases (there == bytes)) [
        | inl same ↦
            rw (read, same, classify_attachments)
              (
                λ e. (inr (ap data_of (eq_of_== there bytes same)), later.0 e),
                λ (c, rest). later.1 rest,
              )
        | inr differ ↦
            rw (read, differ, classify_attachments)
              (
                λ e. absurd (cc),
                λ (c, rest). elim c [
                  | inl bad ↦ absurd (cc)
                  | inr same ↦ not-both (==_of_eq there bytes (cc)) differ
                ],
              )
      ]
    ]

-- An import has no conflict exactly if each unit of the package is new to the target or equal to the
-- unit there in content, state vector, change log, relationships, dimensions, phase, revision, author
-- and dates, and each attachment is new or has the bytes of the file there. Units may differ in the
-- Engineering Domain, provenance, confidence, prompt hash, commit and capture data without a conflict.
pub classify-conflicts-eq-nil :
    (repo_unit : String → Option KnowledgeUnit) (target_file : String → TargetFile)
    (units : List KnowledgeUnit) (files : List (String × String))
    → (((classify repo_unit target_file units files).conflicts ≡ [])
        × ((classify repo_unit target_file units files).conflict_attachment ≡ []))
      ↔ (All (IsCompatible repo_unit) units × All (IsCompatibleFile target_file) files)
unfolding classify
classify-conflicts-eq-nil repo_unit target_file units files = (
  λ (c, f). (
    (unit_conflicts-eq-nil repo_unit units).0 ((sort-eq-nil _ _).0 c),
    (file_conflicts-eq-nil target_file files).0 ((sort-eq-nil _ _).0 f),
  ),
  λ (c, f). (
    (sort-eq-nil _ _).1 ((unit_conflicts-eq-nil repo_unit units).1 c),
    (sort-eq-nil _ _).1 ((file_conflicts-eq-nil target_file files).1 f),
  ),
)
