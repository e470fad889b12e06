-- ===== src/Conformance/State/Execution.antt =====
-- The D1 table of execution states against the rules that state.go gives in words.
use eka_core.Base.{
  ℕ, suc, zero, String, true, ◌≡◌, ◌↔◌, refl, inl, inr, ◌||◌, ◌==◌, some, arith, get_elem?, ap,
  if_elim, ||_elim, eq_of_==, ◌≤◌, sym,
}
use eka_core.Conformance.State.Index.{get_elem?-index_of}
use eka_core.Conformance.State.{execution_state_values, index_of, is_legal_execution_transition}

-- One step forward in the order of the values (`canceled`, at 5, is not in the sequence).
pub data D1 : String → String → Type 0 where
  forward :
      {v w : String} (i : ℕ)
      → index_of execution_state_values v ≡ some i
      → index_of execution_state_values w ≡ some (suc i)
      → suc i ≤ 4
      → D1 v w
  pull_back :
      {v w : String} (i : ℕ)
      → index_of execution_state_values v ≡ some (suc i)
      → index_of execution_state_values w ≡ some i
      → 1 ≤ i
      → i ≤ 2
      → D1 v w
  cancel :
      {v w : String} (i : ℕ)
      → index_of execution_state_values v ≡ some i
      → i ≤ 4
      → w ≡ "canceled"
      → D1 v w
  reactivate : {v w : String} → v ≡ "canceled" → w ≡ "todo" → D1 v w

-- Two states that are found at known positions.
at :
    {v w : String} (a b : String)
    → some a ≡ some v
    → some b ≡ some w
    → is_legal_execution_transition a b ≡ true
    → is_legal_execution_transition v w ≡ true
at a b p q h = cc

named :
    {v : String} (i : ℕ)
    → index_of execution_state_values v ≡ some i
    → get_elem? execution_state_values i ≡ some v
named {v} i = get_elem?-index_of execution_state_values v i

module _ {v w : String} where
  from_D1 : D1 v w → is_legal_execution_transition v w ≡ true
  unfolding is_legal_execution_transition
  from_D1 (forward zero a b h) = at "planned" "todo" (named 0 a) (named 1 b) refl
  from_D1 (forward (suc zero) a b h) = at "todo" "in-progress" (named 1 a) (named 2 b) refl
  from_D1 (forward (suc (suc zero)) a b h) =
      at "in-progress" "in-review" (named 2 a) (named 3 b) refl
  from_D1 (forward (suc (suc (suc zero))) a b h) =
      at "in-review" "done" (named 3 a) (named 4 b) refl
  from_D1 (forward (suc (suc (suc (suc i)))) a b h) = absurd (omega arith)
  from_D1 (pull_back zero a b g h) = absurd (omega arith)
  from_D1 (pull_back (suc zero) a b g h) = at "in-progress" "todo" (named 2 a) (named 1 b) refl
  from_D1 (pull_back (suc (suc zero)) a b g h) =
      at "in-review" "in-progress" (named 3 a) (named 2 b) refl
  from_D1 (pull_back (suc (suc (suc i))) a b g h) = absurd (omega arith)
  from_D1 (cancel zero a h e) = at "planned" "canceled" (named 0 a) (ap some (sym e)) refl
  from_D1 (cancel (suc zero) a h e) = at "todo" "canceled" (named 1 a) (ap some (sym e)) refl
  from_D1 (cancel (suc (suc zero)) a h e) =
      at "in-progress" "canceled" (named 2 a) (ap some (sym e)) refl
  from_D1 (cancel (suc (suc (suc zero))) a h e) =
      at "in-review" "canceled" (named 3 a) (ap some (sym e)) refl
  from_D1 (cancel (suc (suc (suc (suc zero)))) a h e) =
      at "done" "canceled" (named 4 a) (ap some (sym e)) refl
  from_D1 (cancel (suc (suc (suc (suc (suc i))))) a h e) = absurd (omega arith)
  from_D1 (reactivate p q) = at "canceled" "todo" (ap some (sym p)) (ap some (sym q)) refl

position :
    (v a : String) (i : ℕ)
    → index_of execution_state_values a ≡ some i
    → (v == a) ≡ true
    → index_of execution_state_values v ≡ some i
position v a i h e = rw (eq_of_== v a e) h

-- The rows of the table, one for each state that is left.
module _ (v w : String) where
  row_planned : (v == "planned") ≡ true → (w == "todo" || w == "canceled") ≡ true → D1 v w
  unfolding index_of
  row_planned e t =
      let here = position v "planned" 0 refl e in
      elim (||_elim (w == "todo") _ t) [
        | inl f ↦ forward 0 here (position w "todo" 1 refl f) (omega arith)
        | inr f ↦ cancel 0 here (omega arith) (eq_of_== w _ f)
      ]

  row_todo : (v == "todo") ≡ true → (w == "in-progress" || w == "canceled") ≡ true → D1 v w
  unfolding index_of
  row_todo e t =
      let here = position v "todo" 1 refl e in
      elim (||_elim (w == "in-progress") _ t) [
        | inl f ↦ forward 1 here (position w "in-progress" 2 refl f) (omega arith)
        | inr f ↦ cancel 1 here (omega arith) (eq_of_== w _ f)
      ]

  row_in_progress :
      (v == "in-progress") ≡ true
      → (w == "in-review" || (w == "todo" || w == "canceled")) ≡ true
      → D1 v w
  unfolding index_of
  row_in_progress e t =
      let here = position v "in-progress" 2 refl e in
      elim (||_elim (w == "in-review") _ t) [
        | inl f ↦ forward 2 here (position w "in-review" 3 refl f) (omega arith)
        | inr u ↦ elim (||_elim (w == "todo") _ u) [
          | inl f ↦ pull_back 1 here (position w "todo" 1 refl f) (omega arith) (omega arith)
          | inr f ↦ cancel 2 here (omega arith) (eq_of_== w _ f)
        ]
      ]

  row_in_review :
      (v == "in-review") ≡ true
      → (w == "done" || (w == "in-progress" || w == "canceled")) ≡ true
      → D1 v w
  unfolding index_of
  row_in_review e t =
      let here = position v "in-review" 3 refl e in
      elim (||_elim (w == "done") _ t) [
        | inl f ↦ forward 3 here (position w "done" 4 refl f) (omega arith)
        | inr u ↦ elim (||_elim (w == "in-progress") _ u) [
          | inl f ↦ pull_back 2 here (position w "in-progress" 2 refl f) (omega arith) (omega arith)
          | inr f ↦ cancel 3 here (omega arith) (eq_of_== w _ f)
        ]
      ]

  row_done : (v == "done") ≡ true → (w == "canceled") ≡ true → D1 v w
  unfolding index_of
  row_done e f = cancel 4 (position v "done" 4 refl e) (omega arith) (eq_of_== w _ f)

  row_canceled : (v == "canceled") ≡ true → (w == "todo") ≡ true → D1 v w
  row_canceled e f = reactivate (eq_of_== v _ e) (eq_of_== w _ f)

  to_D1 : is_legal_execution_transition v w ≡ true → D1 v w
  unfolding is_legal_execution_transition
  to_D1 l = elim (if_elim (v == "planned") _ _ l) [
    | inl (e, t) ↦ row_planned e t
    | inr (_, l1) ↦ elim (if_elim (v == "todo") _ _ l1) [
      | inl (e, t) ↦ row_todo e t
      | inr (_, l2) ↦ elim (if_elim (v == "in-progress") _ _ l2) [
        | inl (e, t) ↦ row_in_progress e t
        | inr (_, l3) ↦ elim (if_elim (v == "in-review") _ _ l3) [
          | inl (e, t) ↦ row_in_review e t
          | inr (_, l4) ↦ elim (if_elim (v == "done") _ _ l4) [
            | inl (e, t) ↦ row_done e t
            | inr (_, l5) ↦ elim (if_elim (v == "canceled") _ _ l5) [
              | inl (e, t) ↦ row_canceled e t
              | inr (_, no_row) ↦ absurd (cc)
            ]
          ]
        ]
      ]
    ]
  ]

-- The table allows a step exactly when it is one place forward up to `done`, one place back from
-- `in-progress` or `in-review`, a cancellation of a state up to `done`, or `canceled` to `todo`.
pub is_legal_execution_transition_iff :
    (v w : String) → (is_legal_execution_transition v w ≡ true) ↔ D1 v w
is_legal_execution_transition_iff v w = (to_D1 v w, from_D1)
