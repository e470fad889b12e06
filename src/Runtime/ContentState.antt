-- ===== src/Runtime/ContentState.antt =====
-- runtime/transition.go: the content-state branch, and the replacement of an ADR.
pub mod Next
use eka_core.Base.{
  ℕ, suc, String, Bool, false, not, ◌&&◌, ◌||◌, Option, none, some, List, eqb, ◌==◌, if◌then◌else◌,
  length, get_elem?, any, contains, Result, ◌>>=◌, ok, err,
}
use eka_core.Conformance.State.{
  domain_content_state, domain_values, index_of, before, lacks, owned_domains,
}
use eka_core.Conformance.Reference.{Reference, reference_line}
use eka_core.Exchange.{AuthorIdentity, Relationship, KnowledgeUnit}
use eka_core.Store.Rows.{Store}
use eka_core.Store.Query.{units, units_by_project}
use eka_core.Runtime.World.{
  TransitionRequest, TransitionResult, World, Failure, no_forward_step, not_in_table, forward_only,
  is_terminal, not_superseded,
}
use eka_core.Runtime.Units.{version_of, target_of}
use eka_core.Runtime.Publish.{publish_state_transition}

unfoldable pub owns_content_state : String → Bool
unfolding contains
owns_content_state ty = contains (owned_domains ty) domain_content_state

-- A version pins the instance; a reference without one always counts.
unfoldable pub replaces_instance : Reference → ℕ → Reference → Bool
replaces_instance target version r =
    reference_line r == reference_line target && (not r.has_version || eqb r.version version)

unfoldable pub supersedes : Reference → ℕ → KnowledgeUnit → Relationship → Bool
supersedes target version u rel =
    rel.ty == "supersedes"
    && elim (target_of u rel) [ none ↦ false | some r ↦ replaces_instance target version r ]

unfoldable pub is_instance : Reference → ℕ → KnowledgeUnit → Bool
is_instance target version u =
    u.identity.namespace == target.namespace
    && (u.identity.ty == target.ty
        && (u.identity.id == target.id && eqb u.identity.instance_version version))

unfoldable pub is_superseder : Reference → ℕ → KnowledgeUnit → Bool
is_superseder target version u =
    not (is_instance target version u) && any (supersedes target version u) u.relationships

-- A store failure confirms no replacement.
unfoldable pub has_superseder : World → Store → String → Reference → ℕ → Bool
has_superseder w s project target version = elim (units_by_project w.codec s project) [
  | err e ↦ false
  | ok units ↦ any (is_superseder target version) units
]

-- The value after `from`; the position of a value that is not of the list is -1.
unfoldable pub next_value : List String → String → Option String
next_value values from = elim (index_of values from) [
  | none ↦ none
  | some i ↦ get_elem? values (suc i)
]

unfoldable pub content_destination :
    List String → TransitionRequest → String → Result Failure String
content_destination values req from =
    if req.forward || req.backward
    then if req.backward
      then err forward_only
      else elim (next_value values from) [ none ↦ err (no_forward_step from) | some to ↦ ok to ]
    else ok req.to

-- `fromIdx >= 0 && toIdx == fromIdx+1`
unfoldable pub is_next : List String → String → String → Bool
is_next values from to = elim (index_of values from) [
  | none ↦ false
  | some i ↦ elim (index_of values to) [ none ↦ false | some j ↦ eqb j (suc i) ]
]

unfoldable pub is_last : List String → String → Bool
is_last values from = elim (index_of values from) [
  | none ↦ false
  | some i ↦ eqb (suc i) (length values)
]

unfoldable pub content_refusal : List String → String → String → Failure
content_refusal values from to =
    if is_last values from
    then is_terminal from
    else if lacks values to
    then not_in_table from to
    else if before (index_of values from) (index_of values to)
    then not_in_table from to
    else forward_only

unfoldable pub transition_content_state :
    World
    → Store
    → String
    → String
    → Reference
    → KnowledgeUnit
    → String
    → TransitionRequest
    → AuthorIdentity
    → Result Failure (Store × TransitionResult)
transition_content_state w s project source_repo ref current from req by =
    let values = domain_values domain_content_state ref.ty in
    content_destination values req from >>= λ to.
    if is_next values from to
    then if ref.ty == "adr"
        && (to == "superseded" && not (has_superseder w s project ref (version_of current)))
      then err (not_superseded (reference_line ref))
      else publish_state_transition w s project source_repo current from to domain_content_state by
    else err (content_refusal values from to)
