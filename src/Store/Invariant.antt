-- ===== src/Store/Invariant.antt =====
-- store/payloads.go: what a store is between two operations, and the puts.
use eka_core.Base.{
  ℕ, String, ◌≡◌, refl, ◌∙◌, ◌⊎◌, inl, inr, Bool, true, false, none, List, [], ◌∷◌, arith, eq_iff,
  eq_refl, ◌==◌, Bool-cases, Option-cases, eq_of_==, All, is_some, ok, ◌⊕◌,
}
use eka_core.Store.Rows.{
  PayloadRow, Ref, RefRow, Store, find_payload, find_ref, upsert_ref, has_duplicate_number,
}
use eka_core.Store.Put.{Env, hash_unit, current_hash, new_row, move_ref, put_unit_tx}
use eka_core.Store.Archive.{
  Extends, insert_payload_absent, insert_payload_present, find-insert_payload, new_payload,
  put_unit_tx-payloads, put_unit_tx-Extends,
}
use eka_core.Store.Forward.{
  ref_hash, find_ref-upsert_ref_ne, outcome, idempotent, kept_newer, moved,
}

-- A row is addressed by its bytes, and its predecessor is a row that was there before it.
abbrev pub IsLineage : (String → String) → List PayloadRow → Type 0
IsLineage sha [] = Unit {0}
IsLineage sha (p ∷ ps) =
    (p.object_hash ≡ sha (p.unit_json ⊕ p.content))
    × (find_payload p.object_hash ps ≡ none)
    × (((p.prev_hash == "") ≡ true) ⊎ (is_some (find_payload p.prev_hash ps) ≡ true))
    × IsLineage sha ps

-- No two references of one form.
abbrev pub IsKeyed : List RefRow → Type 0
IsKeyed [] = Unit {0}
IsKeyed (r ∷ rs) = (find_ref r.ref.form rs ≡ none) × IsKeyed rs

abbrev pub IsStored : List PayloadRow → RefRow → Type 0
IsStored ps r = is_some (find_payload r.object_hash ps) ≡ true

pub record IsWellFormed (sha : String → String) (s : Store) : Type 0 where
  pub lineage : IsLineage sha s.payloads
  pub keyed : IsKeyed s.refs
  pub stored : All (IsStored s.payloads) s.refs
  pub numbered : has_duplicate_number s.refs ≡ false

IsKeyed-upsert_ref : (new : RefRow) (rs : List RefRow) → IsKeyed rs → IsKeyed (upsert_ref new rs)
unfolding upsert_ref find_ref
IsKeyed-upsert_ref new [] k = (refl, tt)
IsKeyed-upsert_ref new (r ∷ rs) k = elim (Bool-cases (r.ref.form == new.ref.form)) [
  | inl same ↦ rw same (rw (← eq_of_== r.ref.form new.ref.form same) k.0, k.1)
  | inr other ↦ rw other (
    find_ref-upsert_ref_ne r.ref.form new rs
          (ground (arith, eq_iff r.ref.form new.ref.form, eq_iff new.ref.form r.ref.form))
        ∙ k.0,
    IsKeyed-upsert_ref new rs k.1,
  )
]

All-upsert_ref :
    (P : RefRow → Type 0) (new : RefRow) (rs : List RefRow)
    → ((n : ℕ) (g : String) → P (record new { number = n; number_group = g }))
    → P new
    → All P rs
    → All P (upsert_ref new rs)
unfolding upsert_ref
All-upsert_ref P new [] renumbered p a = (p, tt)
All-upsert_ref P new (r ∷ rs) renumbered p a = elim (Bool-cases (r.ref.form == new.ref.form)) [
  | inl same ↦ rw same (renumbered r.number r.number_group, a.1)
  | inr other ↦ rw other (a.0, All-upsert_ref P new rs renumbered p a.1)
]

All-imp :
    (P Q : RefRow → Type 0) (rs : List RefRow) → ((r : RefRow) → P r → Q r) → All P rs → All Q rs
All-imp P Q [] imp a = tt
All-imp P Q (r ∷ rs) imp a = (imp r a.0, All-imp P Q rs imp a.1)

IsStored-Extends :
    (ps qs : List PayloadRow) → Extends ps qs → (r : RefRow) → IsStored ps r → IsStored qs r
IsStored-Extends ps qs ext r h = elim (Option-cases (find_payload r.object_hash ps)) [
  | inl gone ↦ absurd (cc (rw gone at h))
  | inr (p, found) ↦ rw (ext r.object_hash p found) refl
]

current_stored :
    (f : String) (ps : List PayloadRow) (rs : List RefRow)
    → All (IsStored ps) rs
    → ((current_hash (find_ref f rs) == "") ≡ true)
      ⊎ (is_some (find_payload (current_hash (find_ref f rs)) ps) ≡ true)
unfolding find_ref
current_stored f ps [] a = inl (eq_refl "")
current_stored f ps (r ∷ rs) a = elim (Bool-cases (r.ref.form == f)) [
  | inl same ↦ rw same (inr a.0)
  | inr other ↦ rw other (current_stored f ps rs a.1)
]

module _ (env : Env) (repoint : Bool) (j c : String) (r : Ref) (s t : Store) (h : String)
    (kept : Bool) (v : IsWellFormed env.sha256 s)
    (done : put_unit_tx env repoint j c r s ≡ ok (t, h, kept)) where
  abbrev fresh : PayloadRow
  fresh = new_payload env j c r s

  IsLineage-kept : IsLineage env.sha256 t.payloads
  unfolding hash_unit
  IsLineage-kept =
      let grown = (put_unit_tx-payloads env repoint j c r s t h kept done).0 in
      elim (Option-cases (find_payload fresh.object_hash s.payloads)) [
        | inl absent ↦
            rw (grown, insert_payload_absent fresh s.payloads absent)
              (refl, absent, current_stored r.form s.payloads s.refs v.stored, v.lineage)
        | inr (old, there) ↦ rw (grown, insert_payload_present fresh s.payloads old there) v.lineage
      ]

  fresh_stored : is_some (find_payload (hash_unit env j c) t.payloads) ≡ true
  fresh_stored =
      let grown = (put_unit_tx-payloads env repoint j c r s t h kept done).0 in
      elim (Option-cases (find_payload fresh.object_hash s.payloads)) [
        | inl absent ↦ rw (grown, find-insert_payload fresh s.payloads absent) refl
        | inr (old, there) ↦
            rw (grown, insert_payload_present fresh s.payloads old there, there) refl
      ]

  old-IsStored : All (IsStored t.payloads) s.refs
  old-IsStored =
      All-imp (IsStored s.payloads) (IsStored t.payloads) s.refs
        (IsStored-Extends s.payloads t.payloads
          (put_unit_tx-Extends env repoint j c r s t h kept done))
        v.stored

  refs_kept : (IsKeyed t.refs) × (All (IsStored t.payloads) t.refs)
  unfolding new_row
  refs_kept = elim (outcome env repoint j c r s t h kept done) [
    | idempotent flag refs eq ↦ rw refs (v.keyed, old-IsStored)
    | kept_newer flag refs why ↦ rw refs (v.keyed, old-IsStored)
    | moved flag why refs numbers ↦
        let row = new_row s.refs (hash_unit env j c) (ref_hash r.form s) r in
        rw refs (
          IsKeyed-upsert_ref row s.refs v.keyed,
          All-upsert_ref (IsStored t.payloads) row s.refs (λ n g. fresh_stored) fresh_stored
              old-IsStored,
        )
  ]

  numbered_kept : has_duplicate_number t.refs ≡ false
  unfolding put_unit_tx move_ref
  numbered_kept = elim (outcome env repoint j c r s t h kept done) [
    | idempotent flag refs eq ↦ rw refs v.numbered
    | kept_newer flag refs why ↦ rw refs v.numbered
    | moved flag why refs numbers ↦ numbers
  ]

  -- Every put that succeeds, `PutUnit` or `RepointUnit`, keeps the store well formed: each payload is
  -- addressed by its bytes and follows one that was stored before it, no form has two references, each
  -- reference points at a stored payload, and no number is given twice in a project's group.
  pub put_unit_tx-IsWellFormed : IsWellFormed env.sha256 t
  put_unit_tx-IsWellFormed = record {
    lineage = IsLineage-kept;
    keyed = refs_kept.0;
    stored = refs_kept.1;
    numbered = numbered_kept;
  }
