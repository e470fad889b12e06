-- ===== src/Conformance/Report.antt =====
-- conformance/validate.go, conformance/cko.go and conformance/report.go: the run of all rules over a
-- set of artifacts, and the report.
pub mod Verdict
use eka_core.Base.{
  ℕ, suc, String, Bool, false, not, none, some, List, [], ◌∷◌, ◌++◌, ltb, eqb, ◌==◌, if◌then◌else◌,
  flat_map, text_below, stable_sort,
}
use eka_core.Conformance.State.{index_of}
use eka_core.Conformance.Artifact.{Artifact}
use eka_core.Conformance.Engine.{Severity, Detail, Finding, Engine, error, warning}
use eka_core.Conformance.Rules.Identity.{rule1, rule2}
use eka_core.Conformance.Rules.States.{rule3, rule4}
use eka_core.Conformance.Rules.References.{rule5}
use eka_core.Conformance.Rules.Dimension.{rule6}
use eka_core.Conformance.Rules.ChangeLog.{rule7}
use eka_core.Conformance.Rules.Sections.{rule9}
use eka_core.Conformance.Rules.WorkItems.{rule8}
use eka_core.Conformance.Rules.Strata.{rule10, rule11, rule12}
use eka_core.Conformance.Rules.Notes.{validate_graph}

-- The rules of one artifact, in their order.
unfoldable pub artifact_rules : Engine → Artifact → List Finding
unfolding rule2 rule3 rule4 rule5 rule6 rule7 rule8 rule9 rule10 rule11 rule12
artifact_rules e a =
    rule2 e a
    ++ (rule3 a
        ++ (rule4 a
            ++ (rule5 e a
                ++ (rule6 e a
                    ++ (rule7 a
                        ++ (rule8 e a
                            ++ (rule9 e a ++ (rule10 e a ++ (rule11 a ++ rule12 e a)))))))))

-- The engine of the repository gate.
unfoldable pub repository_engine : List Artifact → Engine
repository_engine artifacts = record {
  artifacts = artifacts;
  skip_location = false;
  cko_resolve = none;
  draft_ref = none;
}

-- The findings of the repository gate over the scanned artifacts, after those of the scan.
unfoldable pub validate : (Detail → String) → List Finding → List Artifact → List Finding
unfolding rule1 flat_map artifact_rules validate_graph repository_engine
validate render scanned artifacts =
    scanned
    ++ (rule1 (repository_engine artifacts)
        ++ (flat_map (artifact_rules (repository_engine artifacts)) artifacts
            ++ validate_graph render artifacts (record { resolve = none; skip_gates = false })))

unfoldable pub error_count : List Finding → ℕ
error_count [] = 0
error_count (f ∷ fs) =
    let later = error_count fs in elim f.severity [ error ↦ suc later | warning ↦ later ]

unfoldable pub warning_count : List Finding → ℕ
warning_count [] = 0
warning_count (f ∷ fs) =
    let later = warning_count fs in elim f.severity [ error ↦ later | warning ↦ suc later ]

unfoldable pub pass : List Finding → Bool
unfolding error_count
pass results = eqb (error_count results) 0

unfoldable pub rule_rank : String → ℕ
unfolding index_of
rule_rank rule =
    elim (index_of
      ("R0" ∷ "R1" ∷ "R2" ∷ "R3" ∷ "R4" ∷ "R5" ∷ "R6" ∷ "R7" ∷ "R8" ∷ "R9" ∷ "R10" ∷ "R11" ∷ "R12"
        ∷ "R13" ∷ [])
      rule) [ none ↦ 99 | some i ↦ i ]

unfoldable pub severity_rank : Severity → ℕ
severity_rank error = 0
severity_rank warning = 1

-- `render` is the text of a message.
unfoldable pub result_order : (Detail → String) → Finding → Finding → Bool
unfolding rule_rank severity_rank
result_order render a b =
    if not (a.file == b.file)
    then text_below a.file b.file
    else if not (eqb (rule_rank a.rule) (rule_rank b.rule))
    then ltb (rule_rank a.rule) (rule_rank b.rule)
    else if not (eqb (severity_rank a.severity) (severity_rank b.severity))
    then ltb (severity_rank a.severity) (severity_rank b.severity)
    else text_below (render a.detail) (render b.detail)

unfoldable pub sorted_results : (Detail → String) → List Finding → List Finding
unfolding stable_sort result_order
sorted_results render results = stable_sort (result_order render) results
