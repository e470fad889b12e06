-- ===== src/Conformance/Reference.antt =====
-- conformance/rules.go, `parseReference`: the grammar `[<namespace>/][<type>:]<id>[:<version>]`.
pub mod RoundTrip
use eka_core.Base.{
  ℕ, zero, suc, ◌+◌, ◌-◌, ◌*◌, ◌/◌, ◌%◌, ◌≤◌, ◌<◌, String, ◌≡◌, refl, sym, ap, ◌∙◌, ◌≢◌, ◌↔◌, ◌⊎◌,
  inl, inr, Bool, true, false, not, ◌&&◌, ◌||◌, Option, none, some, List, [], ◌∷◌, ◌++◌, map, arith,
  eq_iff, eq_refl, ltb, leb, eqb, ◌==◌, if◌then◌else◌, Bool-cases, Option-cases, eq_of_==, ==_of_eq,
  &&_elim, ||_elim, if_elim, not-both, Member, All, is_some, contains, Result, ◌>>=◌, >>=-eq-ok, ok,
  err, ◌⊕◌, is_space, trim_left, trim_right, trim_space, every, cut, cut_last, is_digit,
  digits_value, atoi,
}
use eka_core.Conformance.State.{
  domain_content_state, domain_execution_state, domain_planning_state, domain_container_state,
  domain_existence_state, domain_note_state, domain_phase, relationship_fields, versioned_types,
  work_item_types, TypeInfo, type_tokens, execution_state_values, planning_state_values,
  container_state_values, existence_state_values, note_state_values, phase_values, living_values,
  adr_values, decision_values, content_state_variant, domain_values, index_of, before,
  is_legal_execution_transition, lacks, is_legal_transition, owned_domains, is_known_type,
  is_versioned_type, is_work_item_type, valid_state_value, number_group,
}

pub record Reference : Type 0 where
  pub namespace : String
  pub ty : String
  pub id : String
  pub version : ℕ
  pub has_version : Bool

pub data ReferenceError : Type 0 where
  empty_reference empty_namespace missing_type bad_version bad_id : ReferenceError
  unknown_type : String → ReferenceError

unfoldable pub all_digits : String → Bool
all_digits s = not (s == "") && every is_digit s

is_bad_id : String → Bool
is_bad_id rest = rest == "" || is_some (cut b':' rest)

-- The last check, and the result.
with_id : String → String → ℕ → Bool → String → Result ReferenceError Reference
unfolding is_bad_id
with_id ns ty version has_version rest =
    if is_bad_id rest
    then err bad_id
    else ok (record {
      namespace = ns;
      ty = ty;
      id = rest;
      version = version;
      has_version = has_version;
    })

-- The optional suffix `:<digits>`.
with_version : String → String → String → Result ReferenceError Reference
unfolding with_id
with_version ns ty rest = elim (cut_last b':' rest) [
  | none ↦ with_id ns ty 0 false rest
  | some (before_colon, suffix) ↦
      if all_digits suffix
      then elim (atoi suffix) [
        | none ↦ err bad_version
        | some ver ↦ with_id ns ty ver true before_colon
      ]
      else with_id ns ty 0 false rest
]

checked_type : String → String → String → Result ReferenceError Reference
unfolding with_version
checked_type ns ty rest =
    if is_known_type ty then with_version ns ty rest else err (unknown_type ty)

with_type : String → String → String → Result ReferenceError Reference
unfolding checked_type
with_type def_type ns rest = elim (cut b':' rest) [
  | some (ty, rest') ↦ checked_type ns ty rest'
  | none ↦ if def_type == "" then err missing_type else checked_type ns def_type rest
]

unfoldable pub parse_reference : String → String → String → Result ReferenceError Reference
unfolding with_type
parse_reference s def_namespace def_type =
    let t = trim_space s in
    if t == "" then err empty_reference else elim (cut b'/' t) [
      | none ↦ with_type def_type def_namespace t
      | some (ns, rest) ↦ if ns == "" then err empty_namespace else with_type def_type ns rest
    ]

-- `ns + "/" + type + ":" + id`, the key of an artifact line.
unfoldable pub line_form : String → String → String → String
line_form ns ty id = ns ⊕ ("/" ⊕ (ty ⊕ (":" ⊕ id)))

unfoldable pub reference_line : Reference → String
unfolding line_form
reference_line r = line_form r.namespace r.ty r.id
