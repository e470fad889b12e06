-- ===== src/Tests/Tables.antt =====
-- Runs of the tables and of references.
use eka_core.Base.{◌≡◌, refl, ◌↔◌, true, false, lookup, ok, is_space, every}
use eka_core.Conformance.State.{
  type_tokens, domain_values, index_of, before, is_legal_execution_transition, lacks,
  is_legal_transition, is_known_type,
}
use eka_core.Conformance.Reference.{parse_reference, line_form}
use eka_core.Conformance.State.Execution.{D1, is_legal_execution_transition_iff}
use eka_core.Conformance.State.Order.{Chain, Chain-before, one, more}
use eka_core.Conformance.Reference.RoundTrip.{IsName, parse_reference-line_form}

is_legal_execution_transition_iff_example :
    (is_legal_execution_transition "todo" "in-progress" ≡ true) ↔ D1 "todo" "in-progress"
is_legal_execution_transition_iff_example = is_legal_execution_transition_iff "todo" "in-progress"

abbrev PlanLife : Type 0
PlanLife = Chain "planning-state" "plan" "draft" "immutable"

plan_chain : PlanLife
unfolding is_legal_transition lacks before index_of domain_values
plan_chain = more {w = "approved"} refl (one refl)

Chain-before_example :
    before
      (index_of (domain_values "planning-state" "plan") "draft")
      (index_of (domain_values "planning-state" "plan") "immutable")
    ≡ true
Chain-before_example = Chain-before "planning-state" "plan" refl refl refl plan_chain

acme-IsName : IsName "acme"
unfolding every is_space
acme-IsName = (refl, refl)

login-IsName : IsName "login"
unfolding every is_space
login-IsName = (refl, refl)

sto_known : is_known_type "sto" ≡ true
unfolding is_known_type type_tokens lookup
sto_known = refl

parse_reference-line_form_example :
    parse_reference (line_form "acme" "sto" "login") "" ""
    ≡ ok (record { namespace = "acme"; ty = "sto"; id = "login"; version = 0; has_version = false })
parse_reference-line_form_example =
    parse_reference-line_form "acme" "sto" "login" "" "" acme-IsName sto_known login-IsName
