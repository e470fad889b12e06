-- ===== src/Store/Forward.antt =====
-- store/payloads.go: what a put does to the references.
use eka_core.Base.{
  ℕ, ◌≤◌, ◌<◌, String, ◌≡◌, refl, ◌⊎◌, inl, inr, Bool, true, false, not, ◌&&◌, some, List, [], ◌∷◌,
  arith, eq_iff, eq_refl, ltb, ◌==◌, Bool-cases, not-both, ok,
}
use eka_core.Store.Rows.{
  Ref, RefRow, Store, find_ref, insert_payload, upsert_ref, has_duplicate_number,
}
use eka_core.Store.Put.{
  Env, hash_unit, is_ancestor, current_hash, current_version, new_row, move_ref, put_unit_tx,
  put_unit, repoint_unit,
}
use eka_core.Store.Archive.{new_payload, put_unit_tx-payloads}
use eka_core.Store.Lineage.{Ancestor, is_ancestor-Ancestor}

abbrev pub ref_hash : String → Store → String
ref_hash form s = current_hash (find_ref form s.refs)

abbrev pub ref_version : String → Store → ℕ
ref_version form s = current_version (find_ref form s.refs)

pub find_ref-upsert_ref :
    (new : RefRow) (rs : List RefRow)
    → (row : RefRow) × (find_ref new.ref.form (upsert_ref new rs) ≡ some row)
      × (row.ref ≡ new.ref)
      × (row.object_hash ≡ new.object_hash)
unfolding find_ref upsert_ref
find_ref-upsert_ref new [] = (new, rw (eq_refl new.ref.form), refl, refl)
find_ref-upsert_ref new (r ∷ rs) = elim (Bool-cases (r.ref.form == new.ref.form)) [
  | inl same ↦ (
    record new { number = r.number; number_group = r.number_group },
    rw (same, eq_refl new.ref.form),
    refl,
    refl,
  )
  | inr other ↦
      let (row, found, cols, hash) = find_ref-upsert_ref new rs in
      (row, rw (other, other) found, cols, hash)
]

pub find_ref-upsert_ref_ne :
    (f : String) (new : RefRow) (rs : List RefRow)
    → (new.ref.form == f) ≡ false
    → find_ref f (upsert_ref new rs) ≡ find_ref f rs
unfolding find_ref upsert_ref
find_ref-upsert_ref_ne f new [] ne = rw ne
find_ref-upsert_ref_ne f new (r ∷ rs) ne = ground (
  arith,
  find_ref-upsert_ref_ne f new rs,
  eq_iff r.ref.form new.ref.form,
  eq_iff r.ref.form f,
  eq_iff new.ref.form f,
)

-- The three ways in which a put succeeds.
pub data Outcome (env : Env) (repoint : Bool) (j c : String) (r : Ref) (s t : Store) (kept : Bool)
    : Type 0 where
  idempotent :
      kept ≡ false
      → t.refs ≡ s.refs
      → hash_unit env j c ≡ ref_hash r.form s
      → Outcome env repoint j c r s t kept
  kept_newer :
      kept ≡ true
      → t.refs ≡ s.refs
      → ((repoint ≡ false)
          × (is_ancestor t.payloads (hash_unit env j c) (ref_hash r.form s) ≡ true))
        ⊎ ((repoint ≡ true) × (r.instance_version < ref_version r.form s))
      → Outcome env repoint j c r s t kept
  moved :
      kept ≡ false
      → ((ref_hash r.form s == "") ≡ true)
        ⊎ (((repoint ≡ false)
              × (is_ancestor t.payloads (hash_unit env j c) (ref_hash r.form s) ≡ false))
            ⊎ ((repoint ≡ true) × (ref_version r.form s ≤ r.instance_version)))
      → t.refs ≡ upsert_ref (new_row s.refs (hash_unit env j c) (ref_hash r.form s) r) s.refs
      → has_duplicate_number t.refs ≡ false
      → Outcome env repoint j c r s t kept

module _ (env : Env) (repoint : Bool) (j c : String) (r : Ref) (s t : Store) (h : String)
    (kept : Bool) where
  abbrev prev : String
  prev = ref_hash r.form s

  abbrev digest : String
  digest = hash_unit env j c

  abbrev ancestor : Bool
  ancestor = is_ancestor (insert_payload (new_payload env j c r s) s.payloads) digest prev

  -- The last step of a put: the reference row is written.
  moved_by :
      (p : Store)
      → p.refs ≡ s.refs
      → move_ref p digest prev r ≡ ok (t, h, kept)
      → (kept ≡ false)
        × (t.refs ≡ upsert_ref (new_row s.refs digest prev r) s.refs)
        × (has_duplicate_number t.refs ≡ false)
  unfolding move_ref
  moved_by p same_refs e = ground arith

  pub outcome :
      put_unit_tx env repoint j c r s ≡ ok (t, h, kept) → Outcome env repoint j c r s t kept
  unfolding put_unit_tx
  outcome e =
      let grown = (put_unit_tx-payloads env repoint j c r s t h kept e).0 in
      elim (Bool-cases (not (prev == "") && digest == prev)) [
        | inl idem ↦ idempotent (ground arith) (ground arith) (ground (arith, eq_iff digest prev))
        | inr changed ↦ elim (Bool-cases (not (prev == "") && (not repoint && ancestor))) [
          | inl old ↦ kept_newer (ground arith) (ground arith) (ground (arith, grown))
          | inr new ↦
              elim (Bool-cases
                (not (prev == "") && (repoint && ltb r.instance_version (ref_version r.form s)))) [
                  | inl regress ↦ kept_newer (ground arith) (ground arith) (ground (arith, grown))
                  | inr ahead ↦
                      let (flag, refs, numbers) =
                        moved_by
                          (record s {
                            payloads = insert_payload (new_payload env j c r s) s.payloads;
                          })
                          refl (rw (changed, new, ahead) at e) in
                      moved flag (ground (arith, grown)) refs numbers
                ]
        ]
      ]

-- The reference that a put names, in the store that it leaves.
pub moved_ref :
    (s t : Store) (hash prev : String) (r : Ref)
    → t.refs ≡ upsert_ref (new_row s.refs hash prev r) s.refs
    → (row : RefRow) × (find_ref r.form t.refs ≡ some row)
      × (row.ref ≡ r)
      × (row.object_hash ≡ hash)
unfolding new_row
moved_ref s t hash prev r e =
    let (row, found, cols, same_hash) = find_ref-upsert_ref (new_row s.refs hash prev r) s.refs in
    (row, rw e found, cols, same_hash)

module _ (env : Env) (j c : String) (r : Ref) (s t : Store) (h : String) (kept : Bool) where
  -- The forward-only guard of `PutUnit`: a put of a line that is stored leaves the reference where
  -- it was, or moves it to the put payload. It is kept with the flag raised when the put payload is
  -- in the lineage of the current one, and moves only to a payload that is not.
  pub put_unit_forward :
      (ref_hash r.form s == "") ≡ false
      → put_unit env j c r s ≡ ok (t, h, kept)
      → ((kept ≡ true)
          × (ref_hash r.form t ≡ ref_hash r.form s)
          × Ancestor t.payloads h (ref_hash r.form s))
        ⊎ ((kept ≡ false)
            × (ref_hash r.form t ≡ h)
            × ((h ≡ ref_hash r.form s) ⊎ ¬ Ancestor t.payloads h (ref_hash r.form s)))
  unfolding put_unit
  put_unit_forward stored e =
      let digest = (put_unit_tx-payloads env false j c r s t h kept e).1 in
      let lineage = is_ancestor-Ancestor t.payloads h (ref_hash r.form s) in
      elim (outcome env false j c r s t h kept e) [
        | idempotent flag refs eq ↦ inr (flag, ground arith, inl (ground arith))
        | kept_newer flag refs why ↦ elim why [
          | inl (_, old) ↦ inl (flag, ground arith, lineage.0 (ground arith))
          | inr (repoint, _) ↦ absurd (cc)
        ]
        | moved flag why refs numbers ↦
            let (row, found, cols, hash) =
              moved_ref s t (hash_unit env j c) (ref_hash r.form s) r refs in
            elim why [
              | inl empty ↦ not-both empty stored
              | inr (inl (_, new)) ↦
                  inr (flag, ground arith, inr (λ a. not-both (lineage.1 a) (ground arith)))
              | inr (inr (repoint, _)) ↦ absurd (cc)
            ]
      ]

  -- `RepointUnit` never takes the reference to an older instance version.
  pub repoint_unit-version :
      (ref_hash r.form s == "") ≡ false
      → repoint_unit env j c r s ≡ ok (t, h, kept)
      → ref_version r.form s ≤ ref_version r.form t
  unfolding repoint_unit
  repoint_unit-version stored e = elim (outcome env true j c r s t h kept e) [
    | idempotent flag refs eq ↦ ground arith
    | kept_newer flag refs why ↦ ground arith
    | moved flag why refs numbers ↦
        let (row, found, cols, hash) =
          moved_ref s t (hash_unit env j c) (ref_hash r.form s) r refs in
        elim why [
          | inl empty ↦ not-both empty stored
          | inr (inl (repoint, _)) ↦ absurd (cc)
          | inr (inr (_, le)) ↦ ground arith
        ]
  ]

-- A put changes no reference but the one that it names.
pub put_unit_tx_frame :
    (env : Env) (repoint : Bool) (j c : String) (r : Ref) (s t : Store) (h : String) (kept : Bool)
    (f : String)
    → (r.form == f) ≡ false
    → put_unit_tx env repoint j c r s ≡ ok (t, h, kept)
    → find_ref f t.refs ≡ find_ref f s.refs
unfolding new_row
put_unit_tx_frame env repoint j c r s t h kept f other e =
    elim (outcome env repoint j c r s t h kept e) [
      | idempotent flag refs eq ↦ rw refs
      | kept_newer flag refs why ↦ rw refs
      | moved flag why refs numbers ↦ rw refs (
          find_ref-upsert_ref_ne f (new_row s.refs (hash_unit env j c) (ref_hash r.form s) r) s.refs
            other)
    ]
