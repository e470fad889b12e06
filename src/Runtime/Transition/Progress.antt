-- ===== src/Runtime/Transition/Progress.antt =====
-- The forward steps of a work item (runtime/transition.go) lead to the last state.
use eka_core.Base.{ℕ, zero, suc, ◌≤◌, String, ◌≡◌, refl, inl, inr, true, arith, Member}
use eka_core.Conformance.State.{execution_state_values, is_legal_execution_transition}
use eka_core.Runtime.Transition.{transition_step}

-- The state after a number of forward steps.
abbrev pub advance : ℕ → String → String
unfolding transition_step
advance zero from = from
advance (suc steps) from = advance steps (transition_step from true)

-- Each of a number of forward steps exists and is in the table.
abbrev pub AllLegal : ℕ → String → Type 0
unfolding transition_step is_legal_execution_transition
AllLegal zero from = Unit
AllLegal (suc steps) from =
    (is_legal_execution_transition from (transition_step from true) ≡ true)
    × AllLegal steps (transition_step from true)

-- From every execution state at most four forward steps, each in the transition table, lead to done.
pub advance-done :
    (from : String)
    → Member from execution_state_values
    → (steps : ℕ) × (steps ≤ 4) × AllLegal steps from × (advance steps from ≡ "done")
unfolding transition_step is_legal_execution_transition
advance-done from m = elim m [
  | inl e ↦ rw e (4, ground arith, (refl, (refl, (refl, (refl, tt)))), refl)
  | inr (inl e) ↦ rw e (3, ground arith, (refl, (refl, (refl, tt))), refl)
  | inr (inr (inl e)) ↦ rw e (2, ground arith, (refl, (refl, tt)), refl)
  | inr (inr (inr (inl e))) ↦ rw e (1, ground arith, (refl, tt), refl)
  | inr (inr (inr (inr (inl e)))) ↦ rw e (0, ground arith, tt, refl)
  | inr (inr (inr (inr (inr (inl e))))) ↦
      rw e (4, ground arith, (refl, (refl, (refl, (refl, tt)))), refl)
  | inr (inr (inr (inr (inr (inr bad))))) ↦ absurd bad
]
