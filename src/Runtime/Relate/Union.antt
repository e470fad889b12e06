-- ===== src/Runtime/Relate/Union.antt =====
-- runtime/relate.go: the union of edges, as a set.
use eka_core.Base.{
  ◌≡◌, refl, ap, ◌↔◌, ◌⊎◌, inl, inr, true, not, List, [], ◌∷◌, ◌++◌, map, arith, eq_iff, ◌==◌,
  Bool-cases, any, filter, Member, mem-sort, Member-append,
}
use eka_core.Exchange.{Relationship}
use eka_core.Runtime.Relate.{
  same_edge, is_seen, distinct_edges, trimmed, is_skipped, added_edges, edge_order,
  merge_relationships,
}

same_edge_iff : (a b : Relationship) → same_edge a b ≡ true ↔ (a ≡ b)
same_edge_iff a b = (
  λ e. ground (arith, eq_iff a.ty b.ty, eq_iff a.target b.target),
  λ e. ground (
    arith,
    eq_iff a.ty b.ty,
    eq_iff a.target b.target,
    ap (λ (x : Relationship). x.ty) e,
    ap (λ (x : Relationship). x.target) e,
  ),
)

is_seen_iff :
    (keys : List Relationship) (rel : Relationship) → is_seen keys rel ≡ true ↔ Member rel keys
unfolding is_seen any
is_seen_iff [] rel = ground arith
is_seen_iff (k ∷ keys) rel = ground (arith, same_edge_iff rel k, is_seen_iff keys rel)

mem-distinct_edges :
    (keys rels : List Relationship) (e : Relationship)
    → Member e (distinct_edges keys rels) ↔ (Member e keys ⊎ Member e rels)
unfolding distinct_edges
mem-distinct_edges keys [] e = ground arith
mem-distinct_edges keys (rel ∷ rels) e = elim (Bool-cases (is_seen keys rel)) [
  | inl old ↦ rw old (ground (arith, mem-distinct_edges keys rels e, (is_seen_iff keys rel).0 old))
  | inr new ↦ rw new (
      ground
        (arith, mem-distinct_edges (keys ++ (rel ∷ [])) rels e, Member-append e keys (rel ∷ [])))
]

-- The edges that a request asks for: trimmed, those whose target is not blank.
unfoldable pub requested : List Relationship → List Relationship
unfolding trimmed filter
requested rels = filter (λ (rel : Relationship). not (rel.target == "")) (map trimmed rels)

-- The edges that a relate adds, next to those that it has seen, are the ones asked for.
mem-added_edges :
    (keys rels : List Relationship) (e : Relationship)
    → (Member e keys ⊎ Member e (added_edges keys rels))
      ↔ (Member e keys ⊎ Member e (requested rels))
unfolding added_edges requested filter is_skipped
mem-added_edges keys [] e = ground arith
mem-added_edges keys (rel ∷ rels) e = elim (Bool-cases ((trimmed rel).target == "")) [
  | inl blank ↦ rw (blank) (mem-added_edges keys rels e)
  | inr named ↦ elim (Bool-cases (is_seen keys (trimmed rel))) [
    | inl old ↦
        rw (named, old)
          (ground (arith, mem-added_edges keys rels e, (is_seen_iff keys (trimmed rel)).0 old))
    | inr new ↦
        rw (named, new)
          (ground (
            arith,
            mem-added_edges (keys ++ (trimmed rel ∷ [])) rels e,
            Member-append e keys (trimmed rel ∷ []),
          ))
  ]
]

added_edges-eq-nil :
    (keys rels : List Relationship)
    → ((e : Relationship) → Member e (requested rels) → Member e keys)
    → added_edges keys rels ≡ []
unfolding added_edges requested filter is_skipped
added_edges-eq-nil keys [] known = refl
added_edges-eq-nil keys (rel ∷ rels) known = elim (Bool-cases ((trimmed rel).target == "")) [
  | inl blank ↦ rw blank (added_edges-eq-nil keys rels (rw blank at known))
  | inr named ↦
      let all_known = rw named at known in
      rw (named, (is_seen_iff keys (trimmed rel)).1 (all_known (trimmed rel) (inl refl)))
        (added_edges-eq-nil keys rels (λ e m. all_known e (inr m)))
]

mem-merged :
    (existing adds : List Relationship) (e : Relationship)
    → Member e (merge_relationships existing adds).0
      ↔ (Member e existing ⊎ Member e (requested adds))
unfolding merge_relationships
mem-merged existing adds e =
    let keys = distinct_edges [] existing in
    let added = added_edges keys adds in
    ground (
      arith,
      mem-sort edge_order e (keys ++ added),
      Member-append e keys added,
      mem-added_edges keys adds e,
      mem-distinct_edges [] existing e,
    )

-- The merged edges are those of the unit and those asked for, and a second relate with the same
-- edges has nothing to add.
pub merge_relationships_lem :
    (existing adds : List Relationship) (e : Relationship)
    → let merged = (merge_relationships existing adds).0 in
      (Member e merged ↔ (Member e existing ⊎ Member e (requested adds)))
      × ((merge_relationships merged adds).1 ≡ [])
unfolding merge_relationships
merge_relationships_lem existing adds e = (
  mem-merged existing adds e,
  added_edges-eq-nil _ adds (λ d m.
      (mem-distinct_edges [] (merge_relationships existing adds).0 d).1
        (inr ((mem-merged existing adds d).1 (inr m)))),
)
