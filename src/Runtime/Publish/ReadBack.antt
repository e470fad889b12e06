-- ===== src/Runtime/Publish/ReadBack.antt =====
-- A publication and the read of `Store.Unit` after it.
use mathlib.Core.Path.{subst}
use eka_core.Base.{
  String, ◌≡◌, refl, sym, ap, ◌∙◌, inl, inr, Bool, true, false, none, some, List, [], ◌∷◌, ◌==◌,
  Bool-cases, ==_of_eq, All, is_some, >>=-eq-ok, eq_of_ok-eq-ok, ok,
}
use eka_core.Exchange.{KnowledgeUnit, canonical_form, Codec, decoded}
use eka_core.Store.Rows.{PayloadRow, Ref, RefRow, Store, find_payload, find_ref}
use eka_core.Store.Put.{Env, hash_unit, current_hash, put_unit}
use eka_core.Store.Query.{decode_unit, unit}
use eka_core.Store.Archive.{
  insert_payload_absent, new_payload, put_unit_tx-payloads, put_unit_tx_archives,
}
use eka_core.Store.Lineage.{is_ancestor-Ancestor}
use eka_core.Store.Forward.{ref_hash, outcome, moved_ref, idempotent, kept_newer, moved}
use eka_core.Store.Invariant.{IsStored, IsWellFormed}
use eka_core.Store.Fresh.{new-not_Ancestor}
use eka_core.Runtime.World.{World, store_env, from_store, from_store-ok}
use eka_core.Runtime.Publish.{ref_of, serialize, publish}

same_ref : (a b : RefRow) → some a ≡ some b → a ≡ b
same_ref a b e = cc

All-find_ref :
    (P : RefRow → Type 0) (f : String) (rs : List RefRow) (row : RefRow)
    → All P rs
    → find_ref f rs ≡ some row
    → P row
unfolding find_ref
All-find_ref P f [] row a found = absurd (cc)
All-find_ref P f (r ∷ rs) row (first, rest) found = elim (Bool-cases (r.ref.form == f)) [
  | inl same ↦ subst P (same_ref r row (rw same at found)) first
  | inr other ↦ All-find_ref P f rs row rest (rw other at found)
]

-- What a put that takes the reference leaves to read.
module _ (env : Env) (j c : String) (r : Ref) (s t : Store) (h : String) (kept : Bool)
    (row : RefRow) (v : IsWellFormed env.sha256 s) where
  put_unit_moves :
      find_ref r.form s.refs ≡ some row
      → find_payload (hash_unit env j c) s.payloads ≡ none
      → put_unit env j c r s ≡ ok (t, h, kept)
      → (moved_row : RefRow) × (find_ref r.form t.refs ≡ some moved_row)
        × (moved_row.ref ≡ r)
        × (moved_row.object_hash ≡ hash_unit env j c)
  unfolding put_unit
  put_unit_moves present absent e =
      let held : ref_hash r.form s ≡ row.object_hash = ap current_hash present in
      let stored : is_some (find_payload (ref_hash r.form s) s.payloads) ≡ true =
        ap (λ (x : String). is_some (find_payload x s.payloads)) held
        ∙ All-find_ref (IsStored s.payloads) r.form s.refs row v.stored present in
      let grown =
        (put_unit_tx-payloads env false j c r s t h kept e).0
        ∙ insert_payload_absent (new_payload env j c r s) s.payloads absent in
      elim (outcome env false j c r s t h kept e) [
        | idempotent flag refs eq ↦ absurd (cc (rw (← eq, absent) at stored))
        | kept_newer flag refs why ↦ elim why [
          | inr (repoint, version) ↦ absurd (cc)
          | inl (no_repoint, old) ↦ absurd (
              new-not_Ancestor env.sha256 s.payloads (new_payload env j c r s) (ref_hash r.form s)
                v.lineage absent stored
                ((is_ancestor-Ancestor (new_payload env j c r s ∷ s.payloads) (hash_unit env j c)
                    (ref_hash r.form s)).0
                  (rw grown at old)))
        ]
        | moved flag why refs numbers ↦ moved_ref s t (hash_unit env j c) (ref_hash r.form s) r refs
      ]

decode_back :
    (codec : Codec) (ps : List PayloadRow) (form hash : String) (p : PayloadRow) (u : KnowledgeUnit)
    → find_payload hash ps ≡ some p
    → codec.decode p.unit_json p.content ≡ some u
    → form ≡ canonical_form u.identity
    → decode_unit codec ps form hash ≡ ok (record u { digest = hash })
unfolding decode_unit
decode_back codec ps form hash p u found readable named =
    rw (found, readable, ==_of_eq form (canonical_form u.identity) named, decode_unit) refl

unit_back :
    (codec : Codec) (t : Store) (form hash : String) (row : RefRow) (u : KnowledgeUnit)
    → find_ref form t.refs ≡ some row
    → row.ref.form ≡ form
    → row.object_hash ≡ hash
    → decode_unit codec t.payloads form hash ≡ ok u
    → unit codec t form ≡ ok (some u)
unfolding unit
unit_back codec t form hash row u found named digest read =
    rw (found, named, digest, read, unit) refl

-- In a well-formed store, a unit that is published over a stored one is read back by its form: the
-- unit that was published, with its content, under the digest that the publication returned. The
-- unit's form is the one of its identity, its bytes decode to it, and their digest is new to the
-- archive.
pub publish_reads_back :
    (w : World) (s : Store) (project source_repo json : String) (next : KnowledgeUnit)
    (after : Store) (hash : String) (row : RefRow)
    → w.codec.decode json next.content_payload ≡ some (decoded next next.content_payload)
    → IsWellFormed w.codec.sha256 s
    → next.canonical_identity_form ≡ canonical_form next.identity
    → w.codec.marshal next ≡ some json
    → find_ref next.canonical_identity_form s.refs ≡ some row
    → find_payload (hash_unit (store_env w) json next.content_payload) s.payloads ≡ none
    → publish w s project source_repo next ≡ ok (after, hash)
    → unit w.codec after next.canonical_identity_form
      ≡ ok (some (record (decoded next next.content_payload) { digest = hash }))
unfolding publish ref_of unit decode_unit put_unit
publish_reads_back w s project source_repo json next after hash row inverse v form_ok marshals
      present absent e =
    let (bytes, serialized, e1) = >>=-eq-ok (serialize w next) _ e in
    let r = ref_of project source_repo w.today next in
    let same_json : json ≡ bytes =
      eq_of_ok-eq-ok json bytes (rw (marshals, serialize) at serialized) in
    let ((t, h, kept), put, answer) =
      >>=-eq-ok (from_store (put_unit (store_env w) bytes next.content_payload r s)) _ e1 in
    let stored : put_unit (store_env w) json next.content_payload r s ≡ ok (t, h, kept) =
      rw same_json (from_store-ok _ (t, h, kept) put) in
    let same = eq_of_ok-eq-ok (t, h) (after, hash) answer in
    let (moved_row, found, cols, digest) =
      put_unit_moves (store_env w) json next.content_payload r s t h kept row v present absent
        stored in
    let (by_digest, archived) =
      put_unit_tx_archives (store_env w) false json next.content_payload r s t h kept absent
        stored in
    let read =
      decode_back w.codec t.payloads next.canonical_identity_form h
        (new_payload (store_env w) json next.content_payload r s)
        (decoded next next.content_payload) archived inverse form_ok in
    let back =
      unit_back w.codec t next.canonical_identity_form h moved_row
        (record (decoded next next.content_payload) { digest = h }) found
        (ap (λ (x : Ref). x.form) cols) (digest ∙ sym by_digest) read in
    subst
      (λ (x : Store × String).
        unit w.codec x.0 next.canonical_identity_form
        ≡ ok (some (record (decoded next next.content_payload) { digest = x.1 })))
      same back
