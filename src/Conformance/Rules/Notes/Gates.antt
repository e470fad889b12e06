-- ===== src/Conformance/Rules/Notes/Gates.antt =====
-- The gates of R13 against the early gates of the transition (runtime/transition.go).
use eka_core.Base.{
  ℕ, String, ◌≡◌, refl, ap, ◌↔◌, inl, inr, Bool, true, false, not, ◌||◌, none, some, List, [], ◌∷◌,
  map, ◌==◌, if◌then◌else◌, Bool-cases, length, any, filter,
}
use eka_core.Conformance.State.{domain_note_state}
use eka_core.Conformance.Artifact.{Artifact, state_of}
use eka_core.Conformance.Engine.{finding_if, review_gate}
use eka_core.Conformance.Rules.NoteContent.{note_finding}
use eka_core.Conformance.Rules.Notes.{
  notes_discussing, note_role, note_identity_form, is_review_evidence, done_findings, gate_findings,
}
use eka_core.Runtime.World.{needs_implementation_note}
use eka_core.Runtime.Gates.{
  GateNote, is_resolved_implementation, is_unresolved, violation_of, gate_violations,
}

-- A note as the early gate collects it.
abbrev pub gate_note : Artifact → GateNote
gate_note n = record {
  role = note_role n;
  note_state = state_of domain_note_state n;
  identity = note_identity_form n;
}

any-map :
    (notes : List Artifact)
    → any is_resolved_implementation (map gate_note notes) ≡ any is_review_evidence notes
unfolding any is_resolved_implementation is_review_evidence
any-map [] = refl
any-map (n ∷ notes) = ap (λ later. is_review_evidence n || later) (any-map notes)

open_forms :
    (notes : List Artifact)
    → map (λ (n : GateNote). n.identity) (filter is_unresolved (map gate_note notes))
      ≡ map note_identity_form
          (filter (λ n. not (state_of domain_note_state n == "resolved")) notes)
unfolding filter is_unresolved
open_forms [] = refl
open_forms (n ∷ notes) = elim (Bool-cases (state_of domain_note_state n == "resolved")) [
  | inl t ↦ rw t (open_forms notes)
  | inr f ↦ rw f (ap (λ later. note_identity_form n ∷ later) (open_forms notes))
]

done_findings_iff :
    (a : Artifact) (forms : List String) → done_findings a forms ≡ [] ↔ (violation_of forms ≡ none)
unfolding done_findings note_finding finding_if
done_findings_iff a [] = (λ e. refl, λ e. refl)
done_findings_iff a (form ∷ forms) = (λ e. absurd (cc), λ e. absurd (cc))

review_iff :
    (a : Artifact) (found : Bool) (count : ℕ)
    → note_finding a (not found) review_gate ≡ []
      ↔ ((if found then none else some (needs_implementation_note count)) ≡ none)
unfolding note_finding finding_if
review_iff a true count = (λ e. refl, λ e. refl)
review_iff a false count = (λ e. absurd (cc), λ e. absurd (cc))

-- The validator's R13 gate reports nothing on a work item at a state exactly if the early gate of a
-- transition to that state finds no violation over the notes that discuss the work item.
pub gate_findings_iff :
    (artifacts : List Artifact) (a : Artifact) (state : String)
    → gate_findings artifacts a state ≡ []
      ↔ (gate_violations (map gate_note (notes_discussing artifacts a)) state ≡ none)
unfolding gate_findings gate_violations
gate_findings_iff artifacts a state =
    let notes = notes_discussing artifacts a in
    elim (Bool-cases (state == "in-review")) [
      | inl review ↦
          rw (review, any-map notes)
            (review_iff a (any is_review_evidence notes) (length (map gate_note notes)))
      | inr other ↦ elim (Bool-cases (state == "done")) [
        | inl done ↦ rw (other, done, open_forms notes) (done_findings_iff a _)
        | inr neither ↦ rw (other, neither) (λ e. refl, λ e. refl)
      ]
    ]
