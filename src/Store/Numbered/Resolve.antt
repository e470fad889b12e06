-- ===== src/Store/Numbered/Resolve.antt =====
-- store/numbers.go: a number resolves to the line that carries it.
use eka_core.Base.{
  ℕ, ◌+◌, ◌<◌, String, ◌≡◌, refl, ap, inl, inr, Bool, true, false, none, some, List, [], ◌∷◌, arith,
  eq_iff, eq_refl, ◌==◌, Bool-cases, eqb_of_eq, any, filter, Member, ok,
}
use eka_core.Conformance.State.{number_group}
use eka_core.Store.Rows.{
  Ref, RefRow, Store, find_ref, upsert_ref, same_number, has_duplicate_number, max_number,
}
use eka_core.Store.Put.{Env, hash_unit, new_row, put_unit_tx}
use eka_core.Store.Numbers.{first_put}
use eka_core.Store.Invariant.{IsWellFormed, put_unit_tx-IsWellFormed}
use eka_core.Store.Numbered.{numbered_line, has_number, line_by_number_group}

any-Member :
    {A : Type 0} (test : A → Bool) (xs : List A) (x : A)
    → any test xs ≡ false
    → Member x xs
    → test x ≡ false
unfolding any
any-Member test [] x e m = absurd m
any-Member test (y ∷ ys) x e (inl same) = ground (arith, ap test same)
any-Member test (y ∷ ys) x e (inr there) = any-Member test ys x (ground arith) there

-- Two rows with one positive number in one group of a project share it.
has_number-same :
    (project group : String) (n : ℕ) (a b : RefRow)
    → 0 < n
    → has_number project group n a ≡ true
    → has_number project group n b ≡ true
    → same_number a b ≡ true
unfolding has_number same_number
has_number-same project group n a b positive in_a in_b = ground (
  arith,
  eq_iff a.ref.project_id project,
  eq_iff b.ref.project_id project,
  eq_iff a.number_group group,
  eq_iff b.number_group group,
  eq_iff a.number_group b.number_group,
  eq_iff a.ref.project_id b.ref.project_id,
)

module _ (project group : String) (n : ℕ) (positive : 0 < n) where
  first-number :
      (rs : List RefRow) (r : RefRow)
      → has_duplicate_number rs ≡ false
      → Member r rs
      → has_number project group n r ≡ true
      → (rest : List RefRow) × (filter (has_number project group n) rs ≡ r ∷ rest)
  unfolding has_duplicate_number filter
  first-number [] r e m h = absurd m
  first-number (q ∷ rs) r e (inl same) h =
      (filter (has_number project group n) rs, (rw (← same, h) refl))
  first-number (q ∷ rs) r e (inr there) h = elim (Bool-cases (has_number project group n q)) [
    | inl hit ↦ absurd (
        cc (
          any-Member (same_number q) rs r (ground arith) there,
          has_number-same project group n q r positive hit h,
        ))
    | inr miss ↦ rw miss (first-number rs r (ground arith) there h)
  ]

-- In a well-formed store, a positive number with its project and group resolves to the line of the
-- row that carries it.
pub line_by_number_group-numbered_line :
    (sha : String → String) (s : Store) (r : RefRow)
    → IsWellFormed sha s
    → Member r s.refs
    → 0 < r.number
    → line_by_number_group s r.ref.project_id r.number_group r.number ≡ some (numbered_line r)
unfolding line_by_number_group has_number
line_by_number_group-numbered_line sha s r v there positive =
    let (rest, first) =
      first-number r.ref.project_id r.number_group r.number positive s.refs r v.numbered there (
        ground (
          arith,
          eq_refl r.ref.project_id,
          eq_refl r.number_group,
          eqb_of_eq r.number r.number refl,
        )) in
    rw (line_by_number_group, first) refl

Member-upsert_ref :
    (new : RefRow) (rs : List RefRow)
    → find_ref new.ref.form rs ≡ none
    → Member new (upsert_ref new rs)
unfolding find_ref upsert_ref
Member-upsert_ref new [] absent = inl refl
Member-upsert_ref new (q ∷ rs) absent = elim (Bool-cases (q.ref.form == new.ref.form)) [
  | inl hit ↦ absurd (cc (rw hit at absent))
  | inr miss ↦ rw miss (inr (Member-upsert_ref new rs (rw miss at absent)))
]

-- The number that a put gives to the first reference of a form in a numbered group resolves, in the
-- store after the put, to the line of that reference. The store before it is well formed.
pub line_by_number_group-put_unit_tx :
    (env : Env) (repoint : Bool) (j c : String) (r : Ref) (s t : Store) (h : String) (kept : Bool)
    → IsWellFormed env.sha256 s
    → put_unit_tx env repoint j c r s ≡ ok (t, h, kept)
    → find_ref r.form s.refs ≡ none
    → (number_group r.ty == "") ≡ false
    → let n = max_number r.project_id (number_group r.ty) s.refs + 1 in
      line_by_number_group t r.project_id (number_group r.ty) n
      ≡ some (record {
        project_id = r.project_id;
        namespace = r.namespace;
        ty = r.ty;
        id = r.id;
        number = n;
      })
unfolding new_row numbered_line
line_by_number_group-put_unit_tx env repoint j c r s t h kept v done absent grouped =
    let row = new_row s.refs (hash_unit env j c) "" r in
    let number : row.number ≡ max_number r.project_id (number_group r.ty) s.refs + 1 =
      rw grouped refl in
    let there : Member row t.refs =
      rw (first_put env repoint j c r s t h kept done absent)
        (Member-upsert_ref row s.refs absent) in
    rw (← number) (
      line_by_number_group-numbered_line env.sha256 t row
        (put_unit_tx-IsWellFormed env repoint j c r s t h kept v done) there
        (rw number (omega arith)))
