-- ===== src/Store/Reads.antt =====
-- store/units.go: the units that a query returns, and the rows that they come from.
use mathlib.Core.Path.{subst}
use eka_core.Base.{
  ◌≡◌, refl, sym, inl, inr, Bool, true, List, [], ◌∷◌, filter, Member, >>=-eq-ok, eq_of_ok-eq-ok,
  ok, sort, mem-sort, Member-filter,
}
use eka_core.Exchange.{KnowledgeUnit, Codec}
use eka_core.Store.Rows.{PayloadRow, RefRow, Store}
use eka_core.Store.Query.{decode_unit, by_form, decode_rows, units_by_query}

module _ (codec : Codec) (ps : List PayloadRow) where
  abbrev Decodes : RefRow → KnowledgeUnit → Type 0
  Decodes r u = decode_unit codec ps r.ref.form r.object_hash ≡ ok u

  decode_rows-cons :
      (r : RefRow) (rs : List RefRow) (us : List KnowledgeUnit)
      → decode_rows codec ps (r ∷ rs) ≡ ok us
      → (u : KnowledgeUnit) × (rest : List KnowledgeUnit) × Decodes r u
        × (decode_rows codec ps rs ≡ ok rest)
        × (us ≡ u ∷ rest)
  unfolding decode_rows
  decode_rows-cons r rs us e =
      let (u, first, more) = >>=-eq-ok (decode_unit codec ps r.ref.form r.object_hash) _ e in
      let (rest, others, all) = >>=-eq-ok (decode_rows codec ps rs) _ more in
      (u, rest, first, others, sym (eq_of_ok-eq-ok (u ∷ rest) us all))

  no_rows : (us : List KnowledgeUnit) → decode_rows codec ps [] ≡ ok us → us ≡ []
  unfolding decode_rows
  no_rows us e = sym (eq_of_ok-eq-ok [] us e)

  -- A unit that a query returns is the decoded payload of a selected row.
  pub mem-decode_rows :
      (rs : List RefRow) (us : List KnowledgeUnit) (u : KnowledgeUnit)
      → decode_rows codec ps rs ≡ ok us
      → Member u us
      → (r : RefRow) × Member r rs × Decodes r u
  mem-decode_rows [] us u e m = absurd (subst (Member u) (no_rows us e) m)
  mem-decode_rows (r ∷ rs) us u e m =
      let (x, rest, first, others, all) = decode_rows-cons r rs us e in
      elim (subst (Member u) all m) [
        | inl same ↦ (r, inl refl, rw same first)
        | inr later ↦
            let (y, there, d) = mem-decode_rows rs rest u others later in (y, inr there, d)
      ]

-- A unit that a query returns is the decoded payload of a reference that meets the test.
pub mem-units_by_query :
    (codec : Codec) (s : Store) (test : RefRow → Bool) (us : List KnowledgeUnit) (u : KnowledgeUnit)
    → units_by_query codec s test ≡ ok us
    → Member u us
    → (r : RefRow) × Member r s.refs
      × (test r ≡ true)
      × (decode_unit codec s.payloads r.ref.form r.object_hash ≡ ok u)
unfolding units_by_query
mem-units_by_query codec s test us u e m =
    let (r, there, d) =
      mem-decode_rows codec s.payloads (sort by_form (filter test s.refs)) us u e m in
    let (stored, passes) =
      (Member-filter test r s.refs).0 ((mem-sort by_form r (filter test s.refs)).0 there) in
    (r, stored, passes, d)
