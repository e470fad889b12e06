-- ===== src/Store/Put.antt =====
-- store/payloads.go: `putUnitTx` and its callers.
use eka_core.Base.{
  ℕ, zero, suc, ◌+◌, String, Bool, true, false, not, ◌&&◌, ◌||◌, Option, none, some, List, [], ◌∷◌,
  ltb, ◌==◌, if◌then◌else◌, length, contains, Result, ◌>>=◌, ok, err, ◌⊕◌,
}
use eka_core.Conformance.State.{number_group}
use eka_core.Store.Rows.{
  PayloadRow, Ref, RefRow, Store, StoreError, find_payload, find_ref, insert_payload, upsert_ref,
  has_duplicate_number, max_number, number_taken,
}

-- The digest, and the text of the current time.
pub record Env : Type 0 where
  pub sha256 : String → String
  pub now : String

unfoldable pub hash_unit : Env → String → String → String
hash_unit env unit_json content = env.sha256 (unit_json ⊕ content)

-- The loop of `isAncestor`; `none` when the fuel runs out.
unfoldable pub ancestor_walk : List PayloadRow → ℕ → List String → String → String → Option Bool
ancestor_walk ps zero visited target next = none
ancestor_walk ps (suc fuel) visited target next =
    if next == "" || contains visited next
    then some false
    else if next == target
    then some true
    else elim (find_payload next ps) [
      | none ↦ some false
      | some p ↦ ancestor_walk ps fuel (next ∷ visited) target p.prev_hash
    ]

-- Each round but the last visits another row.
unfoldable pub is_ancestor : List PayloadRow → String → String → Bool
is_ancestor ps target current = elim (ancestor_walk ps (suc (length ps)) [] target current) [
  | none ↦ false
  | some b ↦ b
]

abbrev pub current_hash : Option RefRow → String
current_hash none = ""
current_hash (some r) = r.object_hash

abbrev pub current_version : Option RefRow → ℕ
current_version none = 0
current_version (some r) = r.ref.instance_version

-- The row that a put writes: a new line of a numbered group takes the next number.
unfoldable pub new_row : List RefRow → String → String → Ref → RefRow
new_row refs hash prev r =
    let group = number_group r.ty in
    record {
      ref = r;
      object_hash = hash;
      number =
          if prev == "" && not (group == "") then max_number r.project_id group refs + 1 else 0;
      number_group = group;
    }

-- The reference upsert at the end of `putUnitTx`, under the unique index.
unfoldable pub move_ref : Store → String → String → Ref → Result StoreError (Store × String × Bool)
move_ref s hash prev r =
    let refs = upsert_ref (new_row s.refs hash prev r) s.refs in
    if has_duplicate_number refs
    then err (number_taken r.form)
    else ok (record s { refs = refs }, hash, false)

-- The hash, and whether the reference was kept at a newer instance.
unfoldable pub put_unit_tx :
    Env → Bool → String → String → Ref → Store → Result StoreError (Store × String × Bool)
put_unit_tx env repoint unit_json content r s =
    let hash = hash_unit env unit_json content in
    let row = find_ref r.form s.refs in
    let prev = current_hash row in
    let archived = record s {
      payloads =
          insert_payload
            (record {
              object_hash = hash;
              unit_json = unit_json;
              content = content;
              prev_hash = prev;
              created_at = env.now;
            })
            s.payloads;
    } in
    if not (prev == "") && hash == prev
    then ok (archived, hash, false)
    else if not (prev == "") && (not repoint && is_ancestor archived.payloads hash prev)
    then ok (archived, hash, true)
    else if not (prev == "") && (repoint && ltb r.instance_version (current_version row))
    then ok (archived, hash, true)
    else move_ref archived hash prev r

-- One put in one transaction.
pub record Put : Type 0 where
  pub unit_json : String
  pub content : String
  pub ref : Ref

unfoldable pub put_unit :
    Env → String → String → Ref → Store → Result StoreError (Store × String × Bool)
put_unit env = put_unit_tx env false

unfoldable pub repoint_unit :
    Env → String → String → Ref → Store → Result StoreError (Store × String × Bool)
repoint_unit env = put_unit_tx env true

-- A batch in one transaction: the first error gives no store, so nothing of the batch stays.
unfoldable pub put_units : Env → List Put → Store → Result StoreError (Store × List String)
put_units env [] s = ok (s, [])
put_units env (p ∷ ps) s =
    put_unit_tx env false p.unit_json p.content p.ref s >>= λ (s1, hash, kept).
    put_units env ps s1 >>= λ (s2, hashes). ok (s2, hash ∷ hashes)
