-- ===== src/Tests/Data.antt =====
-- A project of two repositories: a work item with a note and a ticket in an active container, and a
-- planned container. The digest is the identity, and a payload's text names the unit.
use eka_core.Base.{
  String, false, Option, none, some, List, [], ◌∷◌, map, ◌==◌, if◌then◌else◌, Result, ok, err, ◌⊕◌,
}
use eka_core.Exchange.{StateVector, Relationship, KnowledgeUnit, Codec}
use eka_core.Store.Rows.{PayloadRow, RefRow, Store}
use eka_core.Runtime.World.{TransitionRequest, TransitionResult, World, Failure}

abbrev blank_state : StateVector
blank_state = record {
  content_state = "";
  execution_state = "";
  planning_state = "";
  container_state = "";
  existence_state = "";
  note_state = "";
}

abbrev unit_with : String → String → StateVector → List Relationship → KnowledgeUnit
unit_with ty id state rels = record {
  identity = record { namespace = "acme"; ty = ty; id = id; instance_version = 1 };
  canonical_identity_form = "acme/" ⊕ (ty ⊕ (":" ⊕ (id ⊕ ":1")));
  revision = 1;
  author = record { kind = "user"; name = "ann" };
  created = "2026-01-01";
  updated = "2026-01-01";
  state_vector = state;
  change_log = [];
  relationships = rels;
  classification = record { dimension = ""; dimensions_secondary = []; domain = "" };
  phase = "";
  provenance = "";
  source_prompt_hash = "";
  confidence = "";
  source_commit_sha = "";
  capture_meta = record { classifier = ""; dedupe_key = "" };
  content = record { representation = "eka/structured-json/1"; file = "content.json" };
  content_payload = "";
  unit_dir = "";
  digest = "";
}

abbrev link : String → String → Relationship
link ty target = record { ty = ty; target = target }

abbrev pub item : KnowledgeUnit
item = unit_with "sto" "login" (record blank_state { execution_state = "in-review" }) []

abbrev pub note : KnowledgeUnit
note =
    unit_with "cmt" "n1" (record blank_state { note_state = "resolved" })
      (link "discusses" "sto:login" ∷ [])

abbrev pub ticket : KnowledgeUnit
ticket =
    unit_with "tkt" "t1" blank_state
      (link "derives-from" "ctr:c1" ∷ link "derives-from" "sto:login" ∷ [])

abbrev pub running : KnowledgeUnit
running =
    unit_with "ctr" "c1" (record blank_state { container_state = "active" })
      (link "depends-on" "plan:p1" ∷ [])

abbrev pub waiting : KnowledgeUnit
waiting =
    unit_with "ctr" "c2" (record blank_state { container_state = "planned" })
      (link "depends-on" "plan:p2" ∷ [])

abbrev pub locked_plan_unit : KnowledgeUnit
locked_plan_unit = unit_with "plan" "p1" (record blank_state { planning_state = "immutable" }) []

abbrev pub open_plan_unit : KnowledgeUnit
open_plan_unit =
    unit_with "plan" "p2" (record blank_state { planning_state = "approved" })
      (link "derives-from" "dec:d1" ∷ [])

-- The work item after its last step.
abbrev pub finished : KnowledgeUnit
finished = unit_with "sto" "login" (record blank_state { execution_state = "done" }) []

-- An accepted ADR, and the one that replaces it.
abbrev pub old_adr : KnowledgeUnit
old_adr = unit_with "adr" "a1" (record blank_state { content_state = "accepted" }) []

abbrev pub new_adr : KnowledgeUnit
new_adr =
    unit_with "adr" "a2" (record blank_state { content_state = "accepted" })
      (link "supersedes" "adr:a1" ∷ [])

abbrev decode_named : List (String × KnowledgeUnit) → String → Option KnowledgeUnit
decode_named [] name = none
decode_named ((key, u) ∷ m) name =
    let rest = decode_named m name in if key == name then some u else rest

abbrev named_units : List (String × KnowledgeUnit)
named_units =
    ("item", item)
    ∷ ("old", old_adr)
    ∷ ("new", new_adr)
    ∷ ("finished", finished)
    ∷ ("note", note)
    ∷ ("ticket", ticket)
    ∷ ("running", running)
    ∷ ("waiting", waiting)
    ∷ ("locked", locked_plan_unit)
    ∷ ("approved", open_plan_unit)
    ∷ []

abbrev pub test_codec : Codec
test_codec = record {
  marshal = λ u. some (
      u.canonical_identity_form
      ⊕ (u.state_vector.execution_state
          ⊕ (u.state_vector.planning_state ⊕ u.state_vector.container_state)));
  decode = λ json content. decode_named named_units json;
  sha256 = λ text. text;
}

abbrev payload_of : String → PayloadRow
payload_of name = record {
  object_hash = name;
  unit_json = name;
  content = "";
  prev_hash = "";
  created_at = "t0";
}

abbrev row_of : String → String → KnowledgeUnit → RefRow
row_of name repo u = record {
  ref = record {
    form = u.canonical_identity_form;
    project_id = "p";
    source_repo = repo;
    namespace = "acme";
    ty = u.identity.ty;
    id = u.identity.id;
    instance_version = 1;
    revision = 1;
    dimension = "";
    domain = "";
    phase = "";
    updated_at = "t0";
  };
  object_hash = name;
  number = 0;
  number_group = "";
}

abbrev pub test_store : Store
test_store = record {
  payloads =
      map payload_of
        ("item" ∷ "note" ∷ "ticket" ∷ "running" ∷ "waiting" ∷ "locked" ∷ "approved" ∷ []);
  refs =
      row_of "item" "r1" item
      ∷ row_of "note" "r1" note
      ∷ row_of "ticket" "r1" ticket
      ∷ row_of "running" "r1" running
      ∷ row_of "waiting" "r2" waiting
      ∷ row_of "locked" "r1" locked_plan_unit
      ∷ row_of "approved" "r2" open_plan_unit
      ∷ [];
}

-- The work item is done.
abbrev pub finished_store : Store
finished_store = record {
  payloads = map payload_of ("finished" ∷ "ticket" ∷ "running" ∷ []);
  refs =
      row_of "finished" "r1" finished
      ∷ row_of "ticket" "r1" ticket
      ∷ row_of "running" "r1" running
      ∷ [];
}

-- The payload of the work item is lost.
abbrev pub broken_store : Store
broken_store = record {
  payloads = map payload_of ("ticket" ∷ "running" ∷ []);
  refs = finished_store.refs;
}

abbrev pub test_world : String → World
test_world repo_name = record {
  codec = test_codec;
  now = "2026-02-01T00:00:00Z";
  today = "2026-02-01";
  meta_namespace = some "acme";
  repo = some (record { project = "p"; name = repo_name });
  drafts = λ project. some [];
  payload_role = λ text. "implementation";
}

abbrev pub request : String → String → TransitionRequest
request target to = record {
  target = target;
  to = to;
  forward = false;
  backward = false;
  by = "ann";
  by_kind = "";
  confirmed = false;
}

-- The store and the result of a success; the defaults stand for a failure.
abbrev pub after_of : Result Failure (Store × TransitionResult) → Store
after_of (ok (after, result)) = after
after_of (err e) = record { payloads = []; refs = [] }

abbrev pub result_of : Result Failure (Store × TransitionResult) → TransitionResult
result_of (ok (after, result)) = result
result_of (err e) = record {
  target = "";
  from = "";
  to = "";
  by = record { kind = ""; name = "" };
  object_hash = "";
  locked_plan = "";
  locked_plan_hash = "";
  warning = "";
}

abbrev pub adr_store : Store
adr_store = record {
  payloads = map payload_of ("old" ∷ "new" ∷ "locked" ∷ []);
  refs =
      row_of "old" "r1" old_adr
      ∷ row_of "new" "r1" new_adr
      ∷ row_of "locked" "r1" locked_plan_unit
      ∷ [];
}
