-- ===== src/Tests/Numbers.antt =====
-- Runs of the issue numbers (store/payloads.go and store/numbers.go).
use Prim.{tt}
use eka_core.Base.{
  ◌+◌, ◌<◌, String, ◌≡◌, refl, inl, Bool, false, none, some, List, [], ◌∷◌, ◌==◌, any, filter,
  insert, contains, Result, ok, sort,
}
use eka_core.Conformance.State.{is_work_item_type, number_group}
use eka_core.Store.Rows.{
  Ref, RefRow, Store, StoreError, find_payload, find_ref, insert_payload, upsert_ref, same_number,
  has_duplicate_number, max_number,
}
use eka_core.Store.Put.{
  hash_unit, ancestor_walk, is_ancestor, new_row, move_ref, put_unit_tx, put_unit,
}
use eka_core.Tests.Data.{test_store}
use eka_core.Tests.Rows.{test_env, item_ref, put_store, store-IsWellFormed}
use eka_core.Store.Invariant.{IsWellFormed}
use eka_core.Store.Numbers.{put_unit_tx_new_number}
use eka_core.Store.Numbered.{
  NumberedLine, line_form, numbered_line, then_by, number_order, line_by_number, has_number,
  line_by_number_group, numbers_of, numbers_by_project,
}
use eka_core.Store.Numbered.Resolve.{line_by_number_group-put_unit_tx}

-- A store with one numbered work item, and a second instance of the same line.
abbrev numbered_row : RefRow
numbered_row = record {
  ref = item_ref;
  object_hash = "item";
  number = 7;
  number_group = "work-item";
}

abbrev numbered_store : Store
numbered_store = record test_store { refs = numbered_row ∷ [] }

abbrev next_ref : Ref
next_ref = record item_ref { form = "acme/sto:login:2"; instance_version = 2 }

abbrev numbered_run : Ref → Result StoreError (Store × String × Bool)
numbered_run r = put_unit_tx test_env false "new" "" r numbered_store

next_put : numbered_run next_ref ≡ ok (put_store (numbered_run next_ref), "new", false)
unfolding find_payload find_ref insert_payload upsert_ref same_number has_duplicate_number
    max_number hash_unit ancestor_walk is_ancestor new_row move_ref put_unit_tx put_unit
    number_group is_work_item_type contains any
next_put = refl

next_absent : find_ref next_ref.form numbered_store.refs ≡ none
unfolding find_payload find_ref insert_payload upsert_ref same_number has_duplicate_number
    max_number hash_unit ancestor_walk is_ancestor new_row move_ref put_unit_tx put_unit
    number_group is_work_item_type contains any
next_absent = refl

item_numbered : (number_group "sto" == "") ≡ false
unfolding find_payload find_ref insert_payload upsert_ref same_number has_duplicate_number
    max_number hash_unit ancestor_walk is_ancestor new_row move_ref put_unit_tx put_unit
    number_group is_work_item_type contains any
item_numbered = refl

item_group : "work-item" ≡ number_group "sto"
unfolding find_payload find_ref insert_payload upsert_ref same_number has_duplicate_number
    max_number hash_unit ancestor_walk is_ancestor new_row move_ref put_unit_tx put_unit
    number_group is_work_item_type contains any
item_group = refl

put_unit_tx_new_number_example :
    (new : RefRow) × (find_ref next_ref.form (put_store (numbered_run next_ref)).refs ≡ some new)
    × (new.number ≡ max_number "p" (number_group "sto") numbered_store.refs + 1)
    × (numbered_row.number < new.number)
put_unit_tx_new_number_example =
    put_unit_tx_new_number test_env false "new" "" next_ref numbered_store
      (put_store (numbered_run next_ref)) "new" false next_put numbered_row next_absent
      item_numbered (inl refl) refl item_group

numbered_store-IsWellFormed : IsWellFormed test_env.sha256 numbered_store
unfolding find_payload find_ref has_duplicate_number any
numbered_store-IsWellFormed = record {
  lineage = store-IsWellFormed.lineage;
  keyed = (refl, tt);
  stored = (refl, tt);
  numbered = refl;
}

line_by_number_group-put_unit_tx_example :
    line_by_number_group
      (put_store (numbered_run next_ref))
      "p"
      (number_group "sto")
      (max_number "p" (number_group "sto") numbered_store.refs + 1)
    ≡ some (record {
      project_id = "p";
      namespace = "acme";
      ty = "sto";
      id = "login";
      number = max_number "p" (number_group "sto") numbered_store.refs + 1;
    })
line_by_number_group-put_unit_tx_example =
    line_by_number_group-put_unit_tx test_env false "new" "" next_ref numbered_store
      (put_store (numbered_run next_ref)) "new" false numbered_store-IsWellFormed next_put
      next_absent item_numbered

-- Both lookups by the number 8 after that put, and the map of the project.
abbrev eighth_line : NumberedLine
eighth_line = record { project_id = "p"; namespace = "acme"; ty = "sto"; id = "login"; number = 8 }

abbrev eighth_rows : List RefRow
eighth_rows = numbered_row ∷ record numbered_row { ref = next_ref; number = 8 } ∷ []

number_lookups :
    let s = record test_store { refs = eighth_rows } in
    (line_by_number s "p" 8 ≡ eighth_line ∷ [])
    × (line_by_number_group s "p" "note" 8 ≡ none)
    × (numbers_by_project s "p" ≡ (("acme/sto:login", 8) ∷ []))
unfolding line_by_number line_by_number_group numbers_by_project numbers_of has_number number_order
    numbered_line line_form then_by insert sort filter
number_lookups = (refl, refl, refl)
