-- ===== src/Store/Numbers.antt =====
-- store/payloads.go: the issue numbers that `putUnitTx` allocates.
use eka_core.Base.{
  ◌+◌, ◌≤◌, ◌<◌, String, ◌≡◌, refl, ap, inl, inr, Bool, false, Option, none, some, List, [], ◌∷◌,
  arith, eq_iff, eq_refl, ◌==◌, Bool-cases, Member, ok,
}
use eka_core.Conformance.State.{number_group}
use eka_core.Store.Rows.{Ref, RefRow, Store, find_ref, upsert_ref, max_number}
use eka_core.Store.Put.{Env, hash_unit, current_hash, new_row, move_ref, put_unit_tx}
use eka_core.Store.Forward.{ref_hash, outcome, idempotent, kept_newer, moved}

-- The row that an upsert leaves: the old number where the form was stored.
upsert_row : RefRow → Option RefRow → RefRow
upsert_row new none = new
upsert_row new (some old) = record new { number = old.number; number_group = old.number_group }

find_ref-upsert_row :
    (new : RefRow) (rs : List RefRow)
    → find_ref new.ref.form (upsert_ref new rs) ≡ some (upsert_row new (find_ref new.ref.form rs))
unfolding find_ref upsert_ref upsert_row
find_ref-upsert_row new [] = rw (eq_refl new.ref.form)
find_ref-upsert_row new (r ∷ rs) = elim (Bool-cases (r.ref.form == new.ref.form)) [
  | inl hit ↦ rw (hit, eq_refl new.ref.form)
  | inr miss ↦ rw (miss, miss) (find_ref-upsert_row new rs)
]

le-max_number :
    (project group : String) (row : RefRow) (rs : List RefRow)
    → Member row rs
    → row.ref.project_id ≡ project
    → row.number_group ≡ group
    → row.number ≤ max_number project group rs
unfolding max_number
le-max_number project group row [] m p g = absurd m
le-max_number project group row (r ∷ rs) (inl e) p g = ground (
  arith,
  ap (λ (x : RefRow). x.number) e,
  ap (λ (x : RefRow). x.ref.project_id) e,
  ap (λ (x : RefRow). x.number_group) e,
  eq_iff r.ref.project_id project,
  eq_iff r.number_group group,
)
le-max_number project group row (r ∷ rs) (inr m) p g =
    ground (arith, le-max_number project group row rs m p g)

module _ (env : Env) (repoint : Bool) (j c : String) (r : Ref) (s t : Store) (h : String)
    (kept : Bool) (done : put_unit_tx env repoint j c r s ≡ ok (t, h, kept)) where
  pub first_put :
      find_ref r.form s.refs ≡ none
      → t.refs ≡ upsert_ref (new_row s.refs (hash_unit env j c) "" r) s.refs
  unfolding put_unit_tx move_ref
  first_put absent =
      ground (arith, ap current_hash absent, eq_iff (current_hash (find_ref r.form s.refs)) "")

  -- The first reference of a form in a numbered group gets a number that no reference of the project's
  -- group had, whatever lines these belong to: one more than the largest.
  pub put_unit_tx_new_number :
      (row : RefRow)
      → find_ref r.form s.refs ≡ none
      → (number_group r.ty == "") ≡ false
      → Member row s.refs
      → row.ref.project_id ≡ r.project_id
      → row.number_group ≡ number_group r.ty
      → (new : RefRow) × (find_ref r.form t.refs ≡ some new)
        × (new.number ≡ max_number r.project_id (number_group r.ty) s.refs + 1)
        × (row.number < new.number)
  unfolding new_row upsert_row
  put_unit_tx_new_number row absent grouped m p g =
      let below = le-max_number r.project_id (number_group r.ty) row s.refs m p g in
      let new = new_row s.refs (hash_unit env j c) "" r in
      (
        new,
        rw (first_put absent) (rw (find_ref-upsert_row new s.refs, absent)),
        rw grouped refl,
        rw grouped (omega arith),
      )

  -- A put of a stored form keeps its number and its group.
  pub put_unit_tx_same_number :
      (old : RefRow)
      → find_ref r.form s.refs ≡ some old
      → (new : RefRow) × (find_ref r.form t.refs ≡ some new)
        × (new.number ≡ old.number)
        × (new.number_group ≡ old.number_group)
  unfolding upsert_row new_row
  put_unit_tx_same_number old there = elim (outcome env repoint j c r s t h kept done) [
    | idempotent flag refs eq ↦ (old, rw refs there, refl, refl)
    | kept_newer flag refs why ↦ (old, rw refs there, refl, refl)
    | moved flag why refs numbers ↦
        let row = new_row s.refs (hash_unit env j c) (ref_hash r.form s) r in
        (
          upsert_row row (some old),
          rw refs (rw (find_ref-upsert_row row s.refs, there)),
          refl,
          refl,
        )
  ]
