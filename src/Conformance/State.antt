-- ===== src/Conformance/State.antt =====
-- conformance/state.go: type tokens, state domains, value sets and transition tables. A Go map is
-- an association list; an index that the source sets to -1 is `none`.

pub mod Index
pub mod Order
pub mod Execution
use eka_core.Base.{
  ℕ, suc, zero, String, Bool, true, false, ◌&&◌, ◌||◌, Option, none, some, List, [], ◌∷◌, ltb, ◌==◌,
  if◌then◌else◌, lookup, contains, is_some,
}

abbrev pub domain_content_state : String
domain_content_state = "content-state"

abbrev pub domain_execution_state : String
domain_execution_state = "execution-state"

abbrev pub domain_planning_state : String
domain_planning_state = "planning-state"

abbrev pub domain_container_state : String
domain_container_state = "container-state"

abbrev pub domain_existence_state : String
domain_existence_state = "existence-state"

abbrev pub domain_note_state : String
domain_note_state = "note-state"

abbrev pub domain_phase : String
domain_phase = "phase"

abbrev pub relationship_fields : List String
relationship_fields =
    "amends" ∷ "supersedes" ∷ "derives-from" ∷ "depends-on" ∷ "validates" ∷ "discusses"
    ∷ "replies-to" ∷ "assigned-to" ∷ []

abbrev pub versioned_types : List String
versioned_types = "scp" ∷ "plan" ∷ []

abbrev pub work_item_types : List String
work_item_types = "sto" ∷ "ts" ∷ "bug" ∷ "td" ∷ "ch" ∷ "spk" ∷ []

-- The token of a row is its key.
pub record TypeInfo : Type 0 where
  pub owned : List String
  pub is_knowledge : Bool

abbrev content_owner : Bool → TypeInfo
content_owner k = record {
  owned = domain_content_state ∷ domain_existence_state ∷ [];
  is_knowledge = k;
}

abbrev work_item : TypeInfo
work_item = record {
  owned = domain_execution_state ∷ domain_existence_state ∷ [];
  is_knowledge = false;
}

unfoldable pub type_tokens : List (String × TypeInfo)
type_tokens =
    ("vis", content_owner true)
    ∷ ("str", content_owner true)
    ∷ ("req", content_owner true)
    ∷ ("scp", content_owner true)
    ∷ ("epc", content_owner true)
    ∷ (
      "plan",
      record {
        owned = domain_content_state ∷ domain_planning_state ∷ domain_existence_state ∷ [];
        is_knowledge = true;
      },
    )
    ∷ (
      "ctr",
      record { owned = domain_container_state ∷ domain_existence_state ∷ []; is_knowledge = false },
    )
    ∷ ("tkt", record { owned = []; is_knowledge = false })
    ∷ ("sto", work_item)
    ∷ ("ts", work_item)
    ∷ ("bug", work_item)
    ∷ ("td", work_item)
    ∷ ("ch", work_item)
    ∷ ("spk", work_item)
    ∷ ("ses", record { owned = domain_existence_state ∷ []; is_knowledge = false })
    ∷ ("rvw", content_owner true)
    ∷ (
      "cmt",
      record {
        owned = domain_content_state ∷ domain_existence_state ∷ domain_note_state ∷ [];
        is_knowledge = false;
      },
    )
    ∷ ("mbr", content_owner false)
    ∷ ("adr", content_owner true)
    ∷ ("dec", content_owner true)
    ∷ ("arc", content_owner true)
    ∷ ("spec", content_owner true)
    ∷ ("std", content_owner true)
    ∷ ("run", content_owner true)
    ∷ ("rel", content_owner true)
    ∷ ("shr", content_owner true)
    ∷ ("gls", content_owner true)
    ∷ ("trc", content_owner true)
    ∷ ("fnd", content_owner true)
    ∷ []

abbrev pub execution_state_values : List String
execution_state_values = "planned" ∷ "todo" ∷ "in-progress" ∷ "in-review" ∷ "done" ∷ "canceled" ∷ []

abbrev pub planning_state_values : List String
planning_state_values = "draft" ∷ "approved" ∷ "immutable" ∷ "superseded" ∷ []

abbrev pub container_state_values : List String
container_state_values = "planned" ∷ "active" ∷ "completed" ∷ []

abbrev pub existence_state_values : List String
existence_state_values = "active" ∷ "archived" ∷ "retired" ∷ []

abbrev pub note_state_values : List String
note_state_values = "open" ∷ "resolved" ∷ "dismissed" ∷ []

abbrev pub phase_values : List String
phase_values = "discovery" ∷ "mvp" ∷ "milestone" ∷ "release" ∷ "growth" ∷ "maturity" ∷ "sunset" ∷ []

abbrev pub living_values : List String
living_values = "draft" ∷ "review" ∷ "approved" ∷ "amended" ∷ []

abbrev pub adr_values : List String
adr_values = "proposed" ∷ "accepted" ∷ "superseded" ∷ []

abbrev pub decision_values : List String
decision_values = "draft" ∷ "accepted" ∷ "superseded" ∷ []

unfoldable pub content_state_variant : String → List String
content_state_variant ty =
    if ty == "adr" then adr_values else if ty == "dec" then decision_values else living_values

unfoldable pub domain_values : String → String → List String
unfolding content_state_variant
domain_values domain ty =
    if domain == domain_content_state
    then content_state_variant ty
    else if domain == domain_execution_state
    then execution_state_values
    else if domain == domain_planning_state
    then planning_state_values
    else if domain == domain_container_state
    then container_state_values
    else if domain == domain_existence_state
    then existence_state_values
    else if domain == domain_note_state
    then note_state_values
    else if domain == domain_phase
    then phase_values
    else []

shift : Option ℕ → Option ℕ
shift none = none
shift (some i) = some (suc i)

-- The position of a value; `none` is -1.
unfoldable pub index_of : List String → String → Option ℕ
unfolding shift
index_of [] v = none
index_of (x ∷ xs) v = let rest = index_of xs v in if x == v then some zero else shift rest

-- `a < b` on positions, where `none` is -1.
unfoldable pub before : Option ℕ → Option ℕ → Bool
before none none = false
before none (some j) = true
before (some i) none = false
before (some i) (some j) = ltb i j

unfoldable pub is_legal_execution_transition : String → String → Bool
is_legal_execution_transition from to =
    if from == "planned"
    then to == "todo" || to == "canceled"
    else if from == "todo"
    then to == "in-progress" || to == "canceled"
    else if from == "in-progress"
    then to == "in-review" || (to == "todo" || to == "canceled")
    else if from == "in-review"
    then to == "done" || (to == "in-progress" || to == "canceled")
    else if from == "done"
    then to == "canceled"
    else if from == "canceled"
    then to == "todo"
    else false

unfoldable pub lacks : List String → String → Bool
lacks values v = elim (index_of values v) [ none ↦ true | some i ↦ false ]

-- The rule of the validator for one step of a change log.
unfoldable pub is_legal_transition : String → String → String → String → Bool
is_legal_transition domain ty from to =
    if from == "-" || domain == domain_phase
    then true
    else let values = domain_values domain ty in
      if lacks values from || lacks values to
      then false
      else if domain == domain_execution_state
      then is_legal_execution_transition from to
      else if domain == domain_note_state
      then from == "open" && (to == "resolved" || to == "dismissed")
      else before (index_of values from) (index_of values to)

unfoldable pub owned_domains : String → List String
unfolding lookup type_tokens
owned_domains token = elim (lookup token type_tokens) [ none ↦ [] | some info ↦ info.owned ]

unfoldable pub is_known_type : String → Bool
unfolding lookup type_tokens
is_known_type token = is_some (lookup token type_tokens)

unfoldable pub is_versioned_type : String → Bool
unfolding contains
is_versioned_type token = contains versioned_types token

unfoldable pub is_work_item_type : String → Bool
unfolding contains
is_work_item_type token = contains work_item_types token

unfoldable pub valid_state_value : String → String → String → Bool
unfolding domain_values index_of
valid_state_value domain ty value = is_some (index_of (domain_values domain ty) value)

-- The group that counts the issue numbers of a type; "" is no number.
unfoldable pub number_group : String → String
unfolding is_work_item_type
number_group ty =
    if ty == "tkt"
    then "ticket"
    else if ty == "cmt"
    then "note"
    else if is_work_item_type ty
    then "work-item"
    else ""
