-- ===== src/Tests/Rows.antt =====
-- Runs of the store.
use Prim.{tt}
use eka_core.Base.{
  ℕ, suc, ◌-◌, ◌≤◌, ◌<◌, String, ◌≡◌, refl, ◌≢◌, ◌↔◌, ◌⊎◌, inl, Bool, true, false, none, some, List,
  [], ◌∷◌, eqb, ◌==◌, if◌then◌else◌, any, contains, Result, ok, err,
}
use eka_core.Conformance.State.{is_work_item_type, number_group}
use eka_core.Store.Rows.{
  PayloadRow, Ref, Store, StoreError, find_payload, find_ref, insert_payload, upsert_ref,
  same_number, has_duplicate_number, max_number,
}
use eka_core.Store.Put.{
  Env, hash_unit, ancestor_walk, is_ancestor, new_row, move_ref, put_unit_tx, put_unit,
  repoint_unit,
}
use eka_core.Tests.Data.{test_store}
use eka_core.Store.Archive.{Extends, new_payload, put_unit_tx-Extends, put_unit_tx_archives}
use eka_core.Store.Lineage.{Ancestor, is_ancestor_iff}
use eka_core.Store.Forward.{
  ref_hash, ref_version, put_unit_forward, repoint_unit-version, put_unit_tx_frame,
}
use eka_core.Store.Invariant.{IsWellFormed, put_unit_tx-IsWellFormed}
use eka_core.Store.Busy.{Attempt, retry_busy, retry_busy_bounds, succeeded, was_busy}

abbrev pub test_env : Env
test_env = record { sha256 = λ text. text; now = "t1" }

abbrev pub item_ref : Ref
item_ref = record {
  form = "acme/sto:login:1";
  project_id = "p";
  source_repo = "r1";
  namespace = "acme";
  ty = "sto";
  id = "login";
  instance_version = 1;
  revision = 1;
  dimension = "";
  domain = "";
  phase = "";
  updated_at = "t1";
}

abbrev put_run : Bool → String → Result StoreError (Store × String × Bool)
put_run repoint json = put_unit_tx test_env repoint json "" item_ref test_store

-- The store that a put leaves; it stays as it was on a failure.
abbrev pub put_store : Result StoreError (Store × String × Bool) → Store
put_store (ok (after, hash, kept)) = after
put_store (err e) = test_store

put_succeeds : put_run false "new" ≡ ok (put_store (put_run false "new"), "new", false)
unfolding find_payload find_ref insert_payload upsert_ref same_number has_duplicate_number
    max_number hash_unit ancestor_walk is_ancestor new_row move_ref put_unit_tx put_unit
    number_group is_work_item_type contains any
put_succeeds = refl

unit_put_succeeds :
    put_unit test_env "new" "" item_ref test_store
    ≡ ok (put_store (put_run false "new"), "new", false)
unfolding find_payload find_ref insert_payload upsert_ref same_number has_duplicate_number
    max_number hash_unit ancestor_walk is_ancestor new_row move_ref put_unit_tx put_unit
    number_group is_work_item_type contains any
unit_put_succeeds = refl

repoint_succeeds :
    repoint_unit test_env "new" "" item_ref test_store
    ≡ ok (put_store (put_run true "new"), "new", false)
unfolding repoint_unit find_payload find_ref insert_payload upsert_ref same_number
    has_duplicate_number max_number hash_unit ancestor_walk is_ancestor new_row move_ref put_unit_tx
    put_unit number_group is_work_item_type contains any
repoint_succeeds = refl

already_stored : (ref_hash item_ref.form test_store == "") ≡ false
unfolding find_payload find_ref insert_payload upsert_ref same_number has_duplicate_number
    max_number hash_unit ancestor_walk is_ancestor new_row move_ref put_unit_tx put_unit
    number_group is_work_item_type contains any
already_stored = refl

new_payload_absent : find_payload (hash_unit test_env "new" "") test_store.payloads ≡ none
unfolding find_payload find_ref insert_payload upsert_ref same_number has_duplicate_number
    max_number hash_unit ancestor_walk is_ancestor new_row move_ref put_unit_tx put_unit
    number_group is_work_item_type contains any
new_payload_absent = refl

put_unit_forward_example :
    ((false ≡ true)
      × (ref_hash item_ref.form (put_store (put_run false "new"))
          ≡ ref_hash item_ref.form test_store)
      × Ancestor
          (put_store (put_run false "new")).payloads
          "new"
          (ref_hash item_ref.form test_store))
    ⊎ ((false ≡ false)
        × (ref_hash item_ref.form (put_store (put_run false "new")) ≡ "new")
        × (("new" ≡ ref_hash item_ref.form test_store)
            ⊎ ¬ Ancestor
                (put_store (put_run false "new")).payloads
                "new"
                (ref_hash item_ref.form test_store)))
put_unit_forward_example =
    put_unit_forward test_env "new" "" item_ref test_store (put_store (put_run false "new")) "new"
      false already_stored unit_put_succeeds

repoint_unit-version_example :
    ref_version item_ref.form test_store
    ≤ ref_version item_ref.form (put_store (put_run true "new"))
repoint_unit-version_example =
    repoint_unit-version test_env "new" "" item_ref test_store (put_store (put_run true "new"))
      "new" false already_stored repoint_succeeds

put_unit_tx_frame_example :
    find_ref "acme/tkt:t1:1" (put_store (put_run false "new")).refs
    ≡ find_ref "acme/tkt:t1:1" test_store.refs
put_unit_tx_frame_example =
    put_unit_tx_frame test_env false "new" "" item_ref test_store (put_store (put_run false "new"))
      "new" false "acme/tkt:t1:1" refl put_succeeds

put_unit_tx-Extends_example : Extends test_store.payloads (put_store (put_run false "new")).payloads
put_unit_tx-Extends_example =
    put_unit_tx-Extends test_env false "new" "" item_ref test_store
      (put_store (put_run false "new")) "new" false put_succeeds

put_unit_tx_archives_example :
    ("new" ≡ hash_unit test_env "new" "")
    × (find_payload "new" (put_store (put_run false "new")).payloads
        ≡ some (new_payload test_env "new" "" item_ref test_store))
put_unit_tx_archives_example =
    put_unit_tx_archives test_env false "new" "" item_ref test_store
      (put_store (put_run false "new")) "new" false new_payload_absent put_succeeds

pub store-IsWellFormed : IsWellFormed test_env.sha256 test_store
unfolding find_payload find_ref insert_payload upsert_ref same_number has_duplicate_number
    max_number hash_unit ancestor_walk is_ancestor new_row move_ref put_unit_tx put_unit
    number_group is_work_item_type contains any
store-IsWellFormed = record {
  lineage = (
    refl,
    refl,
    inl refl,
    (
      refl,
      refl,
      inl refl,
      (
        refl,
        refl,
        inl refl,
        (
          refl,
          refl,
          inl refl,
          (refl, refl, inl refl, (refl, refl, inl refl, (refl, refl, inl refl, tt))),
        ),
      ),
    ),
  );
  keyed = (refl, (refl, (refl, (refl, (refl, (refl, (refl, tt)))))));
  stored = (refl, (refl, (refl, (refl, (refl, (refl, (refl, tt)))))));
  numbered = refl;
}

put_unit_tx-IsWellFormed_example : IsWellFormed test_env.sha256 (put_store (put_run false "new"))
put_unit_tx-IsWellFormed_example =
    put_unit_tx-IsWellFormed test_env false "new" "" item_ref test_store
      (put_store (put_run false "new")) "new" false store-IsWellFormed put_succeeds

-- Two payloads that follow each other.
abbrev cycle : List PayloadRow
cycle =
    record { object_hash = "a"; unit_json = ""; content = ""; prev_hash = "b"; created_at = "" }
    ∷ record { object_hash = "b"; unit_json = ""; content = ""; prev_hash = "a"; created_at = "" }
    ∷ []

is_ancestor_iff_example :
    (answer : Bool) × (ancestor_walk cycle 3 [] "c" "a" ≡ some answer)
    × (is_ancestor cycle "c" "a" ≡ answer)
    × ((answer ≡ true) ↔ Ancestor cycle "c" "a")
is_ancestor_iff_example = is_ancestor_iff cycle "c" "a"

abbrev second_time : ℕ → Attempt
second_time i = if eqb i 0 then was_busy else succeeded

retry_busy_bounds_example :
    let r = retry_busy second_time in
    (1 ≤ r.attempts)
    × (r.attempts ≤ 5)
    × (r.slept ≤ 1500)
    × (r.last ≡ second_time (r.attempts - 1))
    × ((i : ℕ) → suc i < r.attempts → second_time i ≡ was_busy)
    × ((second_time (r.attempts - 1) ≢ was_busy) ⊎ (r.attempts ≡ 5))
retry_busy_bounds_example = retry_busy_bounds second_time
