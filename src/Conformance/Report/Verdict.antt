-- ===== src/Conformance/Report/Verdict.antt =====
-- The verdict of a report (conformance/report.go) against the findings that it shows.
use eka_core.Base.{
  String, ◌≡◌, refl, ◌↔◌, ◌⊎◌, inl, inr, true, false, List, [], ◌∷◌, arith, eqb, not-both, Member,
  mem-stable_sort,
}
use eka_core.Conformance.Engine.{Severity, Detail, Finding, error, warning}
use eka_core.Conformance.Report.{error_count, pass, result_order, sorted_results}

Severity-cases : (s : Severity) → (s ≡ error) ⊎ (s ≡ warning)
Severity-cases error = inl refl
Severity-cases warning = inr refl

no_errors : error_count [] ≡ 0
unfolding error_count
no_errors = refl

error_count-cons :
    (x : Finding) (results : List Finding)
    → ((x.severity ≡ error) × (eqb (error_count (x ∷ results)) 0 ≡ false))
      ⊎ ((x.severity ≡ warning) × (error_count (x ∷ results) ≡ error_count results))
unfolding error_count
error_count-cons x results = elim (Severity-cases x.severity) [
  | inl e ↦ inl (e, rw e (ground arith))
  | inr w ↦ inr (w, rw w refl)
]

counted :
    (results : List Finding)
    → eqb (error_count results) 0 ≡ true ↔ ((f : Finding) → Member f results → f.severity ≡ warning)
counted [] = (λ h f m. absurd m, λ h. rw no_errors refl)
counted (x ∷ results) = elim (error_count-cons x results) [
  | inl (e, counts) ↦ (λ h. not-both h counts, λ h. absurd (cc (h x (inl refl))))
  | inr (w, same) ↦ (
    λ h f m. elim m [
      | inl here ↦ rw here w
      | inr there ↦ (counted results).0 (rw same at h) f there
    ],
    λ h. rw same ((counted results).1 (λ f m. h f (inr m))),
  )
]

-- A report passes exactly if every finding that its sorted results show is a warning.
pub pass_iff :
    (render : Detail → String) (results : List Finding)
    → pass results ≡ true
      ↔ ((f : Finding) → Member f (sorted_results render results) → f.severity ≡ warning)
unfolding pass sorted_results
pass_iff render results = (
  λ h f m. (counted results).0 h f ((mem-stable_sort (result_order render) f results).0 m),
  λ h. (counted results).1 (λ f m. h f ((mem-stable_sort (result_order render) f results).1 m)),
)
