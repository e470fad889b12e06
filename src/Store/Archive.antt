-- ===== src/Store/Archive.antt =====
-- store/payloads.go: the payload archive under a put.
use eka_core.Base.{
  String, ◌≡◌, refl, inl, inr, Bool, none, some, List, ◌∷◌, arith, ◌==◌, Bool-cases, Option-cases,
  eq_of_==, ==_of_eq, ok,
}
use eka_core.Store.Rows.{PayloadRow, Ref, Store, find_payload, find_ref, insert_payload}
use eka_core.Store.Put.{Env, hash_unit, current_hash, move_ref, put_unit_tx}

-- Every row of the first archive is found, unchanged, in the second.
abbrev pub Extends : List PayloadRow → List PayloadRow → Type 0
Extends ps qs =
    (h : String) (p : PayloadRow) → find_payload h ps ≡ some p → find_payload h qs ≡ some p

pub insert_payload_absent :
    (q : PayloadRow) (ps : List PayloadRow)
    → find_payload q.object_hash ps ≡ none
    → insert_payload q ps ≡ q ∷ ps
unfolding insert_payload
insert_payload_absent q ps h = rw (h, insert_payload)

pub insert_payload_present :
    (q : PayloadRow) (ps : List PayloadRow) (old : PayloadRow)
    → find_payload q.object_hash ps ≡ some old
    → insert_payload q ps ≡ ps
unfolding insert_payload
insert_payload_present q ps old h = rw (h, insert_payload)

pub Extends-cons :
    (q : PayloadRow) (ps : List PayloadRow)
    → find_payload q.object_hash ps ≡ none
    → Extends ps (q ∷ ps)
unfolding find_payload
Extends-cons q ps absent h p e = elim (Bool-cases (q.object_hash == h)) [
  | inl same ↦ absurd (cc (eq_of_== q.object_hash h same))
  | inr other ↦ rw other e
]

insert_payload-Extends : (q : PayloadRow) (ps : List PayloadRow) → Extends ps (insert_payload q ps)
insert_payload-Extends q ps h p e = elim (Option-cases (find_payload q.object_hash ps)) [
  | inl absent ↦ rw (insert_payload_absent q ps absent) (Extends-cons q ps absent h p e)
  | inr (old, there) ↦ rw (insert_payload_present q ps old there) e
]

pub find-insert_payload :
    (q : PayloadRow) (ps : List PayloadRow)
    → find_payload q.object_hash ps ≡ none
    → find_payload q.object_hash (insert_payload q ps) ≡ some q
unfolding find_payload
find-insert_payload q ps absent =
    rw (insert_payload_absent q ps absent) (rw (==_of_eq q.object_hash q.object_hash refl))

abbrev pub new_payload : Env → String → String → Ref → Store → PayloadRow
new_payload env j c r s = record {
  object_hash = hash_unit env j c;
  unit_json = j;
  content = c;
  prev_hash = current_hash (find_ref r.form s.refs);
  created_at = env.now;
}

module _ (env : Env) (repoint : Bool) (j c : String) (r : Ref) (s : Store) where
  pub put_unit_tx-payloads :
      (t : Store) (h : String) (kept : Bool)
      → put_unit_tx env repoint j c r s ≡ ok (t, h, kept)
      → (t.payloads ≡ insert_payload (new_payload env j c r s) s.payloads) × (h ≡ hash_unit env j c)
  unfolding put_unit_tx move_ref
  put_unit_tx-payloads t h kept e = ground arith

  -- A put that succeeds leaves every stored payload as it was, byte for byte and with its lineage.
  pub put_unit_tx-Extends :
      (t : Store) (h : String) (kept : Bool)
      → put_unit_tx env repoint j c r s ≡ ok (t, h, kept)
      → Extends s.payloads t.payloads
  put_unit_tx-Extends t h kept e =
      rw ((put_unit_tx-payloads t h kept e).0)
        (insert_payload-Extends (new_payload env j c r s) s.payloads)

  -- A put that succeeds returns the digest of the bytes it was given. If the archive had no row of
  -- that digest, it now has one with these bytes, whose predecessor is the payload that the
  -- reference pointed at.
  pub put_unit_tx_archives :
      (t : Store) (h : String) (kept : Bool)
      → find_payload (hash_unit env j c) s.payloads ≡ none
      → put_unit_tx env repoint j c r s ≡ ok (t, h, kept)
      → (h ≡ hash_unit env j c) × (find_payload h t.payloads ≡ some (new_payload env j c r s))
  put_unit_tx_archives t h kept absent e =
      let (grown, same) = put_unit_tx-payloads t h kept e in
      (same, rw (grown, same) (find-insert_payload (new_payload env j c r s) s.payloads absent))
