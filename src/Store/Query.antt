-- ===== src/Store/Query.antt =====
-- store/units.go and store/refs.go: the reads that the runtime makes.
use Prim.Native.Nat.{max}
use eka_core.Base.{
  ℕ, String, Bool, ◌&&◌, Option, none, some, List, [], ◌∷◌, ◌==◌, if◌then◌else◌, filter, length,
  Result, ◌>>=◌, ok, err, text_below, sort,
}
use eka_core.Exchange.{KnowledgeUnit, canonical_form, Codec}
use eka_core.Store.Rows.{
  PayloadRow, RefRow, Store, StoreError, find_payload, find_ref, payload_not_found, undecodable,
  form_mismatch,
}

unfoldable pub decode_unit :
    Codec → List PayloadRow → String → String → Result StoreError KnowledgeUnit
decode_unit codec payloads form hash = elim (find_payload hash payloads) [
  | none ↦ err (payload_not_found hash)
  | some p ↦ elim (codec.decode p.unit_json p.content) [
    | none ↦ err (undecodable form)
    | some u ↦
        if form == canonical_form u.identity
        then ok (record u { digest = hash })
        else err (form_mismatch form (canonical_form u.identity))
  ]
]

-- `none` inside the result: no reference of this form.
unfoldable pub unit : Codec → Store → String → Result StoreError (Option KnowledgeUnit)
unit codec s form = elim (find_ref form s.refs) [
  | none ↦ ok none
  | some r ↦ decode_unit codec s.payloads r.ref.form r.object_hash >>= λ u. ok (some u)
]

abbrev pub by_form : RefRow → RefRow → Bool
by_form a b = text_below a.ref.form b.ref.form

unfoldable pub decode_rows :
    Codec → List PayloadRow → List RefRow → Result StoreError (List KnowledgeUnit)
decode_rows codec payloads [] = ok []
decode_rows codec payloads (r ∷ rs) =
    let rest = decode_rows codec payloads rs in
    decode_unit codec payloads r.ref.form r.object_hash >>= λ u. rest >>= λ us. ok (u ∷ us)

-- … WHERE test ORDER BY form
unfoldable pub units_by_query :
    Codec → Store → (RefRow → Bool) → Result StoreError (List KnowledgeUnit)
units_by_query codec s test = decode_rows codec s.payloads (sort by_form (filter test s.refs))

unfoldable pub units : Codec → Store → String → String → Result StoreError (List KnowledgeUnit)
units codec s project source_repo =
    units_by_query codec s (λ r. r.ref.project_id == project && r.ref.source_repo == source_repo)

unfoldable pub units_by_project : Codec → Store → String → Result StoreError (List KnowledgeUnit)
units_by_project codec s project = units_by_query codec s (λ r. r.ref.project_id == project)

unfoldable pub units_by_line :
    Codec → Store → String → String → String → Result StoreError (List KnowledgeUnit)
units_by_line codec s ns ty id =
    units_by_query codec s (λ r. r.ref.namespace == ns && (r.ref.ty == ty && r.ref.id == id))

-- `Refs`: the references of one repository.
unfoldable pub refs_by_source : Store → String → String → List RefRow
refs_by_source s project source_repo = sort by_form (
    filter (λ (r : RefRow). r.ref.project_id == project && r.ref.source_repo == source_repo) s.refs)

unfoldable pub ref_count : Store → ℕ
ref_count s = length s.refs

unfoldable pub payload_count : Store → ℕ
payload_count s = length s.payloads

unfoldable pub refs_by_project : Store → String → List RefRow
refs_by_project s project = sort by_form (filter (λ r. r.ref.project_id == project) s.refs)

max_version : List RefRow → ℕ
max_version [] = 0
max_version (r ∷ rs) = max r.ref.instance_version (max_version rs)

unfoldable pub max_instance_version : Store → String → String → String → ℕ
unfolding max_version
max_instance_version s ns ty id =
    max_version (filter (λ r. r.ref.namespace == ns && (r.ref.ty == ty && r.ref.id == id)) s.refs)

-- store/numbers.go: the number on the first row of the line; 0 if there is none.
unfoldable pub number_for_line : Store → String → String → String → String → ℕ
number_for_line s project ns ty id =
    elim (filter
      (λ r.
        r.ref.project_id == project
        && (r.ref.namespace == ns && (r.ref.ty == ty && r.ref.id == id)))
      s.refs) [ [] ↦ 0 | r ∷ rs ↦ r.number ]
