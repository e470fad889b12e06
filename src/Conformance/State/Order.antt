-- ===== src/Conformance/State/Order.antt =====
-- conformance/state.go: chains of steps in the domains other than execution-state.
use eka_core.Base.{
  ℕ, String, ◌≡◌, refl, ◌≢◌, inl, inr, true, false, ◌&&◌, ◌||◌, Option, none, some, arith, eq_iff,
  ◌==◌, Bool-cases, eq_of_==, &&_elim, ||_elim, not-both,
}
use eka_core.Conformance.State.{
  domain_execution_state, domain_note_state, domain_phase, domain_values, index_of, before, lacks,
  is_legal_transition,
}

abbrev position : String → String → String → Option ℕ
position domain ty v = index_of (domain_values domain ty) v

before_trans : (i j k : Option ℕ) → before i j ≡ true → before j k ≡ true → before i k ≡ true
unfolding before
before_trans none none k p q = cc
before_trans none (some j) none p q = cc
before_trans none (some j) (some k) p q = refl
before_trans (some i) none k p q = cc
before_trans (some i) (some j) none p q = cc
before_trans (some i) (some j) (some k) p q = ground arith

before_irrefl : (i : Option ℕ) → before i i ≡ false
unfolding before
before_irrefl none = refl
before_irrefl (some i) = ground arith

no_marker : (domain ty : String) → position domain ty "-" ≡ none
unfolding domain_values index_of
no_marker domain ty = ground arith

-- Two or more change-log steps, one after the other.
pub data Chain (domain ty : String) : String → String → Type 0 where
  one : {v w : String} → is_legal_transition domain ty v w ≡ true → Chain domain ty v w
  more :
      {v w x : String}
      → is_legal_transition domain ty v w ≡ true
      → Chain domain ty w x
      → Chain domain ty v x

note_at :
    (ty : String) {v w : String} (a b : String)
    → v ≡ a
    → w ≡ b
    → before (position domain_note_state ty a) (position domain_note_state ty b) ≡ true
    → before (position domain_note_state ty v) (position domain_note_state ty w) ≡ true
note_at ty a b p q h = rw (p, q) h

note_step :
    (ty v w : String)
    → (v == "open" && (w == "resolved" || w == "dismissed")) ≡ true
    → before (position domain_note_state ty v) (position domain_note_state ty w) ≡ true
unfolding index_of before domain_values
note_step ty v w h =
    let (opens, ends) = &&_elim (v == "open") _ h in
    elim (||_elim (w == "resolved") _ ends) [
      | inl e ↦ note_at ty "open" "resolved" (eq_of_== v _ opens) (eq_of_== w _ e) refl
      | inr e ↦ note_at ty "open" "dismissed" (eq_of_== v _ opens) (eq_of_== w _ e) refl
    ]

module _ (domain ty : String) where
  step-before :
      (v w : String)
      → (domain == domain_execution_state) ≡ false
      → (domain == domain_phase) ≡ false
      → (v == "-") ≡ false
      → is_legal_transition domain ty v w ≡ true
      → before (position domain ty v) (position domain ty w) ≡ true
  unfolding is_legal_transition lacks
  step-before v w e p m l = elim (Bool-cases (domain == domain_note_state)) [
    | inl n ↦ rw (eq_of_== domain _ n) (note_step ty v w (ground arith))
    | inr n ↦ ground arith
  ]

  before-ne_marker :
      (v w : String)
      → before (position domain ty v) (position domain ty w) ≡ true
      → (w == "-") ≡ false
  unfolding before
  before-ne_marker v w h = ground (arith, eq_iff w "-", no_marker domain ty)

  -- In a domain that is neither the execution state nor the phase, a chain of legal steps from a
  -- recorded value (not the marker "-") ends at a value that stands later in the value set.
  pub Chain-before :
      {v w : String}
      → (domain == domain_execution_state) ≡ false
      → (domain == domain_phase) ≡ false
      → (v == "-") ≡ false
      → Chain domain ty v w
      → before (position domain ty v) (position domain ty w) ≡ true
  Chain-before e p m (one {v} {w} l) = step-before v w e p m l
  Chain-before e p m (more {v} {w} {x} l c) =
      let first = step-before v w e p m l in
      before_trans (position domain ty v) (position domain ty w) (position domain ty x) first
        (Chain-before e p (before-ne_marker v w first) c)

  -- In such a domain no chain of legal steps comes back to the value that it left.
  pub Chain-ne :
      {v w : String}
      → (domain == domain_execution_state) ≡ false
      → (domain == domain_phase) ≡ false
      → (v == "-") ≡ false
      → Chain domain ty v w
      → v ≢ w
  Chain-ne {v} {w} e p m c same =
      not-both (Chain-before e p m c) (rw (← same) (before_irrefl (position domain ty v)))
