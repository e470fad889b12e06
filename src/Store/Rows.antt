-- ===== src/Store/Rows.antt =====
-- The tables of store/schema.go, `Ref` of store/refs.go, and single-row reads and writes.
use Prim.Native.Nat.{max}
use eka_core.Base.{
  ℕ, String, Bool, false, ◌&&◌, ◌||◌, Option, none, some, List, [], ◌∷◌, ltb, eqb, ◌==◌,
  if◌then◌else◌, any,
}

-- object_payloads
pub record PayloadRow : Type 0 where
  pub object_hash : String
  pub unit_json : String
  pub content : String
  pub prev_hash : String
  pub created_at : String

-- The columns that a caller gives.
pub record Ref : Type 0 where
  pub form : String
  pub project_id : String
  pub source_repo : String
  pub namespace : String
  pub ty : String
  pub id : String
  pub instance_version : ℕ
  pub revision : ℕ
  pub dimension : String
  pub domain : String
  pub phase : String
  pub updated_at : String

-- object_refs: the caller's columns, the payload, and the issue number.
pub record RefRow : Type 0 where
  pub ref : Ref
  pub object_hash : String
  pub number : ℕ
  pub number_group : String

pub record Store : Type 0 where
  pub payloads : List PayloadRow
  pub refs : List RefRow

pub data StoreError : Type 0 where
  payload_not_found : String → StoreError
  undecodable : String → StoreError
  form_mismatch : String → String → StoreError
  number_taken : String → StoreError
  busy : StoreError

-- SELECT … FROM object_payloads WHERE object_hash = ?
unfoldable pub find_payload : String → List PayloadRow → Option PayloadRow
find_payload h [] = none
find_payload h (p ∷ ps) = if p.object_hash == h then some p else find_payload h ps

-- SELECT … FROM object_refs WHERE form = ?
unfoldable pub find_ref : String → List RefRow → Option RefRow
find_ref f [] = none
find_ref f (r ∷ rs) = if r.ref.form == f then some r else find_ref f rs

-- INSERT … ON CONFLICT(object_hash) DO NOTHING
unfoldable pub insert_payload : PayloadRow → List PayloadRow → List PayloadRow
insert_payload p ps = elim (find_payload p.object_hash ps) [ none ↦ p ∷ ps | some old ↦ ps ]

-- INSERT … ON CONFLICT(form) DO UPDATE: an update leaves `number` and `number_group`.
unfoldable pub upsert_ref : RefRow → List RefRow → List RefRow
upsert_ref new [] = new ∷ []
upsert_ref new (r ∷ rs) =
    if r.ref.form == new.ref.form
    then record new { number = r.number; number_group = r.number_group } ∷ rs
    else r ∷ upsert_ref new rs

-- The unique index on (project_id, number_group, number) WHERE number > 0.
unfoldable pub same_number : RefRow → RefRow → Bool
same_number a b =
    ltb 0 a.number
    && (eqb a.number b.number
        && (a.number_group == b.number_group && a.ref.project_id == b.ref.project_id))

unfoldable pub has_duplicate_number : List RefRow → Bool
has_duplicate_number [] = false
has_duplicate_number (r ∷ rs) = any (same_number r) rs || has_duplicate_number rs

-- SELECT COALESCE(MAX(number), 0) … WHERE project_id = ? AND number_group = ?
unfoldable pub max_number : String → String → List RefRow → ℕ
max_number project group [] = 0
max_number project group (r ∷ rs) =
    let rest = max_number project group rs in
    if r.ref.project_id == project && r.number_group == group then max r.number rest else rest
