-- ===== src/Tests/Publication.antt =====
-- A publication that is read back.
use Prim.{tt}
use eka_core.Base.{
  ◌≡◌, refl, ◌↔◌, inl, none, some, [], ◌∷◌, map, length, any, filter, All, flat_map, contains, ok,
  err, itoa, sort,
}
use eka_core.Exchange.{AuthorIdentity, KnowledgeUnit, canonical_form, Codec, decoded}
use eka_core.Conformance.State.{is_work_item_type, number_group}
use eka_core.Store.Rows.{
  PayloadRow, RefRow, Store, find_payload, find_ref, insert_payload, upsert_ref, same_number,
  has_duplicate_number, max_number,
}
use eka_core.Store.Put.{
  hash_unit, ancestor_walk, is_ancestor, new_row, move_ref, put_unit_tx, put_unit,
}
use eka_core.Store.Query.{unit}
use eka_core.Runtime.World.{World, store_env}
use eka_core.Runtime.Publish.{ref_of, publish}
use eka_core.Tests.Data.{item, finished, test_codec, test_world}
use eka_core.Store.Integrity.{
  kind_name, IntegrityViolation, Registry, violation, all_payloads, payload_violations,
  derive_ref_mismatch, ref_violations, is_orphan, attachment_violations, registry_violations,
  violation_order, found_violations, verify_integrity, registry, missing,
}
use eka_core.Store.Integrity.Clean.{
  IsSoundPayload, IsSoundRef, IsSoundAttachment, IsSoundRepo, verify_integrity-eq-nil,
}
use eka_core.Store.Invariant.{IsWellFormed}
use eka_core.Runtime.Publish.ReadBack.{publish_reads_back}

abbrev by_ann : AuthorIdentity
by_ann = record { kind = "user"; name = "ann" }

-- The work item, done.
abbrev next_item : KnowledgeUnit
next_item = record item {
  state_vector = finished.state_vector;
  updated = "2026-02-01";
  change_log =
      (record {
        date = "2026-02-01";
        domain = "execution-state";
        from = "in-review";
        to = "done";
        by = by_ann;
      })
      ∷ [];
}

abbrev next_codec : Codec
next_codec = record test_codec {
  marshal = λ u. some "next";
  decode = λ json content. some (record next_item { content_payload = content });
}

abbrev next_world : World
next_world = record (test_world "r1") { codec = next_codec }

abbrev plain_payload : PayloadRow
plain_payload = record {
  object_hash = "item";
  unit_json = "item";
  content = "";
  prev_hash = "";
  created_at = "t0";
}

abbrev plain_row : RefRow
plain_row = record {
  ref = record {
    form = "acme/sto:login:1";
    project_id = "p";
    source_repo = "r1";
    namespace = "acme";
    ty = "sto";
    id = "login";
    instance_version = 1;
    revision = 1;
    dimension = "";
    domain = "";
    phase = "";
    updated_at = "t0";
  };
  object_hash = "item";
  number = 1;
  number_group = "work-item";
}

abbrev plain_store : Store
plain_store = record { payloads = plain_payload ∷ []; refs = plain_row ∷ [] }

plain_store-IsWellFormed : IsWellFormed next_world.codec.sha256 plain_store
unfolding find_payload find_ref insert_payload upsert_ref same_number has_duplicate_number
    max_number hash_unit ancestor_walk is_ancestor new_row move_ref put_unit_tx put_unit
    number_group is_work_item_type contains any
plain_store-IsWellFormed = record {
  lineage = (refl, refl, inl refl, tt);
  keyed = (refl, tt);
  stored = (refl, tt);
  numbered = refl;
}

abbrev published_store : Store
published_store = elim (publish next_world plain_store "p" "r1" next_item) [
  | err e ↦ plain_store
  | ok (after, hash) ↦ after
]

publication : publish next_world plain_store "p" "r1" next_item ≡ ok (published_store, "next")
unfolding publish ref_of find_payload find_ref insert_payload upsert_ref same_number
    has_duplicate_number max_number hash_unit ancestor_walk is_ancestor new_row move_ref put_unit_tx
    put_unit number_group is_work_item_type contains any
publication = refl

form_of_item : next_item.canonical_identity_form ≡ canonical_form next_item.identity
unfolding canonical_form itoa
form_of_item = refl

item_present : find_ref next_item.canonical_identity_form plain_store.refs ≡ some plain_row
unfolding find_payload find_ref insert_payload upsert_ref same_number has_duplicate_number
    max_number hash_unit ancestor_walk is_ancestor new_row move_ref put_unit_tx put_unit
    number_group is_work_item_type contains any
item_present = refl

next_absent :
    find_payload
      (hash_unit (store_env next_world) "next" next_item.content_payload)
      plain_store.payloads
    ≡ none
unfolding find_payload find_ref insert_payload upsert_ref same_number has_duplicate_number
    max_number hash_unit ancestor_walk is_ancestor new_row move_ref put_unit_tx put_unit
    number_group is_work_item_type contains any
next_absent = refl

publish_reads_back_example :
    unit next_codec published_store "acme/sto:login:1"
    ≡ ok (some (record (decoded next_item "") { digest = "next" }))
publish_reads_back_example =
    publish_reads_back next_world plain_store "p" "r1" "next" next_item published_store "next"
      plain_row refl plain_store-IsWellFormed form_of_item refl item_present next_absent publication

-- A repository of a project that is not registered.
abbrev lost_repo : Registry
lost_repo = record { attachments = []; repos = ("p1", "r1") ∷ []; projects = [] }

abbrev lost_project : IntegrityViolation
lost_project = record { kind = registry; subject = "p1/r1"; evidence = missing "p1" }

-- The same store with other bytes under the digest of its payload.
abbrev damaged_store : Store
damaged_store = record plain_store {
  payloads = map (λ (p : PayloadRow). record p { content = "other" }) plain_store.payloads;
}

scan_runs :
    let scan = λ (s : Store).
      (verify_integrity next_world.codec (store_env next_world) s lost_repo).violations in
    (scan plain_store ≡ lost_project ∷ []) × (length (scan damaged_store) ≡ 2)
unfolding verify_integrity found_violations all_payloads payload_violations ref_violations
    find_payload derive_ref_mismatch violation attachment_violations registry_violations contains
    flat_map sort hash_unit canonical_form itoa violation_order is_orphan filter any kind_name
scan_runs = (refl, refl)

verify_integrity-eq-nil_example :
    (verify_integrity next_world.codec (store_env next_world) plain_store lost_repo).violations ≡ []
    ↔ (All (IsSoundPayload next_world.codec (store_env next_world)) plain_store.payloads
        × All (IsSoundRef next_world.codec plain_store.payloads) plain_store.refs
        × All (IsSoundAttachment (store_env next_world)) lost_repo.attachments
        × All (IsSoundRepo lost_repo.projects) lost_repo.repos)
verify_integrity-eq-nil_example =
    verify_integrity-eq-nil next_world.codec (store_env next_world) plain_store lost_repo
