-- ===== src/Runtime/Publish.antt =====
-- runtime/transition.go: `publishStateTransition`, and the same publication at the end of
-- `Transition`.
pub mod Domains
pub mod Compliant
pub mod ReadBack
pub mod Outcome
use eka_core.Base.{String, none, some, [], ◌∷◌, ◌++◌, ◌==◌, if◌then◌else◌, Result, ◌>>=◌, ok, err}
use eka_core.Conformance.State.{
  domain_content_state, domain_execution_state, domain_planning_state, domain_container_state,
}
use eka_core.Exchange.{AuthorIdentity, StateVector, KnowledgeUnit, line_of}
use eka_core.Store.Rows.{Ref, Store}
use eka_core.Store.Put.{put_unit}
use eka_core.Runtime.World.{TransitionResult, World, store_env, Failure, from_store, unserializable}

-- The switch of `publishStateTransition`, with the case of `Transition` for execution-state.
unfoldable pub with_state : String → String → StateVector → StateVector
with_state domain to v =
    if domain == domain_content_state
    then record v { content_state = to }
    else if domain == domain_planning_state
    then record v { planning_state = to }
    else if domain == domain_container_state
    then record v { container_state = to }
    else if domain == domain_execution_state
    then record v { execution_state = to }
    else v

-- `next := *current` and the assignments that follow it.
unfoldable pub transitioned :
    String → String → String → String → AuthorIdentity → KnowledgeUnit → KnowledgeUnit
transitioned today domain from to by u = record u {
  state_vector = with_state domain to u.state_vector;
  updated = today;
  change_log =
      u.change_log
      ++ (record { date = today; domain = domain; from = from; to = to; by = by }) ∷ [];
}

unfoldable pub ref_of : String → String → String → KnowledgeUnit → Ref
ref_of project source_repo updated_at u = record {
  form = u.canonical_identity_form;
  project_id = project;
  source_repo = source_repo;
  namespace = u.identity.namespace;
  ty = u.identity.ty;
  id = u.identity.id;
  instance_version = u.identity.instance_version;
  revision = u.revision;
  dimension = u.classification.dimension;
  domain = u.classification.domain;
  phase = u.phase;
  updated_at = updated_at;
}

abbrev pub serialize : World → KnowledgeUnit → Result Failure String
serialize w u = elim (w.codec.marshal u) [
  | none ↦ err (unserializable u.canonical_identity_form)
  | some json ↦ ok json
]

-- The new store and the hash of the payload.
unfoldable pub publish :
    World → Store → String → String → KnowledgeUnit → Result Failure (Store × String)
publish w s project source_repo next = serialize w next >>= λ json.
    from_store
      (put_unit (store_env w) json next.content_payload (ref_of project source_repo w.today next) s)
    >>= λ (after, hash, kept). ok (after, hash)

abbrev pub plain_result :
    String → String → String → AuthorIdentity → String → String → TransitionResult
plain_result target from to by hash warning = record {
  target = target;
  from = from;
  to = to;
  by = by;
  object_hash = hash;
  locked_plan = "";
  locked_plan_hash = "";
  warning = warning;
}

unfoldable pub publish_state_transition :
    World
    → Store
    → String
    → String
    → KnowledgeUnit
    → String
    → String
    → String
    → AuthorIdentity
    → Result Failure (Store × TransitionResult)
publish_state_transition w s project source_repo current from to domain by =
    publish w s project source_repo (transitioned w.today domain from to by current)
    >>= λ (after, hash). ok (after, plain_result (line_of current.identity) from to by hash "")
