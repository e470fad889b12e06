-- ===== src/Exchange/Conflict/Aspects.antt =====
-- Which aspects of two units `unitDifferences` compares.
use eka_core.Base.{
  ◌≡◌, refl, ◌↔◌, Bool, true, false, List, [], ◌∷◌, eq_iff, eq_refl, ◌==◌, eq_of_==, ==_of_eq,
  &&_elim, eq_of_eqb, eqb_of_eq, All,
}
use eka_core.Exchange.{AuthorIdentity, StateVector, ChangeLogEntry, Relationship, KnowledgeUnit}
use eka_core.Exchange.Conflict.{
  Difference, same_author, same_vector, same_entry, same_relationship, same_list, change_logs_equal,
  relationships_equal, classifications_equal, noted, checks, unit_differences,
}

same_author_iff : (a b : AuthorIdentity) → same_author a b ≡ true ↔ (a ≡ b)
unfolding same_author
same_author_iff a b = (
  λ h.
      let (k, n) = &&_elim (a.kind == b.kind) _ h in
      let k' = eq_of_== _ _ k in
      let n' = eq_of_== _ _ n in λ i. record { kind = k' i; name = n' i },
  λ e. rw (e, eq_refl b.kind, eq_refl b.name) refl,
)

same_list_iff :
    {A : Type 0} (same : A → A → Bool)
    → ((a b : A) → same a b ≡ true ↔ (a ≡ b))
    → (as' bs : List A) → same_list same as' bs ≡ true ↔ (as' ≡ bs)
unfolding same_list
same_list_iff same test [] [] = (λ h. refl, λ e. refl)
same_list_iff same test [] (b ∷ bs) = (λ h. absurd (cc), λ e. absurd (cc))
same_list_iff same test (a ∷ as') [] = (λ h. absurd (cc), λ e. absurd (cc))
same_list_iff same test (a ∷ as') (b ∷ bs) = (
  λ h.
      let (here, later) = &&_elim (same a b) _ h in
      cc ((test a b).0 here, (same_list_iff same test as' bs).0 later),
  λ e. rw ((test a b).1 (cc), (same_list_iff same test as' bs).1 (cc)) refl,
)

same_vector_iff : (v u : StateVector) → same_vector v u ≡ true ↔ (v ≡ u)
unfolding same_vector
same_vector_iff v u = (
  λ h.
      let (c, h1) = &&_elim (v.content_state == u.content_state) _ h in
      let (x, h2) = &&_elim (v.execution_state == u.execution_state) _ h1 in
      let (p, h3) = &&_elim (v.planning_state == u.planning_state) _ h2 in
      let (k, h4) = &&_elim (v.container_state == u.container_state) _ h3 in
      let (l, n) = &&_elim (v.existence_state == u.existence_state) _ h4 in
      let c' = eq_of_== _ _ c in
      let x' = eq_of_== _ _ x in
      let p' = eq_of_== _ _ p in
      let k' = eq_of_== _ _ k in
      let l' = eq_of_== _ _ l in
      let n' = eq_of_== _ _ n in
      λ i. record {
        content_state = c' i;
        execution_state = x' i;
        planning_state = p' i;
        container_state = k' i;
        existence_state = l' i;
        note_state = n' i;
      },
  λ e.
      rw
        (
          e,
          eq_refl u.content_state,
          eq_refl u.execution_state,
          eq_refl u.planning_state,
          eq_refl u.container_state,
          eq_refl u.existence_state,
          eq_refl u.note_state,
        )
        refl,
)

same_entry_iff : (a b : ChangeLogEntry) → same_entry a b ≡ true ↔ (a ≡ b)
unfolding same_entry
same_entry_iff a b = (
  λ h.
      let (d, h1) = &&_elim (a.date == b.date) _ h in
      let (m, h2) = &&_elim (a.domain == b.domain) _ h1 in
      let (f, h3) = &&_elim (a.from == b.from) _ h2 in
      let (t, w) = &&_elim (a.to == b.to) _ h3 in
      let d' = eq_of_== _ _ d in
      let m' = eq_of_== _ _ m in
      let f' = eq_of_== _ _ f in
      let t' = eq_of_== _ _ t in
      let w' = (same_author_iff a.by b.by).0 w in
      λ i. record { date = d' i; domain = m' i; from = f' i; to = t' i; by = w' i },
  λ e.
      rw
        (
          e,
          eq_refl b.date,
          eq_refl b.domain,
          eq_refl b.from,
          eq_refl b.to,
          (same_author_iff b.by b.by).1 refl,
        )
        refl,
)

same_relationship_iff : (a b : Relationship) → same_relationship a b ≡ true ↔ (a ≡ b)
unfolding same_relationship
same_relationship_iff a b = (
  λ h.
      let (k, n) = &&_elim (a.ty == b.ty) _ h in
      let k' = eq_of_== _ _ k in
      let n' = eq_of_== _ _ n in λ i. record { ty = k' i; target = n' i },
  λ e. rw (e, eq_refl b.ty, eq_refl b.target) refl,
)

-- What the comparison covers of two units.
pub record SameAspects (p r : KnowledgeUnit) : Type 0 where
  pub content_payload : p.content_payload ≡ r.content_payload
  pub state_vector : p.state_vector ≡ r.state_vector
  pub change_log : p.change_log ≡ r.change_log
  pub relationships : p.relationships ≡ r.relationships
  pub dimension : p.classification.dimension ≡ r.classification.dimension
  pub dimensions_secondary :
      p.classification.dimensions_secondary ≡ r.classification.dimensions_secondary
  pub phase : p.phase ≡ r.phase
  pub revision : p.revision ≡ r.revision
  pub author : p.author ≡ r.author
  pub created : p.created ≡ r.created
  pub updated : p.updated ≡ r.updated

pub noted-eq-nil :
    (rows : List (Bool × Difference)) → noted rows ≡ [] ↔ All (λ row. row.0 ≡ true) rows
unfolding noted
noted-eq-nil [] = (λ e. tt, λ u. refl)
noted-eq-nil ((true, d) ∷ rows) =
    (λ e. (refl, (noted-eq-nil rows).0 e), λ (t, later). (noted-eq-nil rows).1 later)
noted-eq-nil ((false, d) ∷ rows) = (λ e. absurd (cc), λ (t, later). absurd (cc))

-- The comparison of an import finds no difference exactly if the two units have the same content,
-- state vector, change log, relationships, dimensions, phase, revision, author and dates.
pub unit_differences-eq-nil : (p r : KnowledgeUnit) → unit_differences p r ≡ [] ↔ SameAspects p r
unfolding unit_differences checks change_logs_equal relationships_equal classifications_equal
unit_differences-eq-nil p r = (
  λ e.
      let (c, (v, (l, (rel, (cls, (ph, (rev, (meta, end_of_rows)))))))) =
        (noted-eq-nil (checks p r)).0 e in
      let (by, dates) = &&_elim (same_author p.author r.author) _ meta in
      let (cr, up) = &&_elim (p.created == r.created) _ dates in
      let (dim, sec) = &&_elim (p.classification.dimension == r.classification.dimension) _ cls in
      record {
        content_payload = eq_of_== _ _ c;
        state_vector = (same_vector_iff _ _).0 v;
        change_log = (same_list_iff same_entry same_entry_iff _ _).0 l;
        relationships = (same_list_iff same_relationship same_relationship_iff _ _).0 rel;
        dimension = eq_of_== _ _ dim;
        dimensions_secondary = (same_list_iff (λ s t. s == t) eq_iff _ _).0 sec;
        phase = eq_of_== _ _ ph;
        revision = eq_of_eqb _ _ rev;
        author = (same_author_iff _ _).0 by;
        created = eq_of_== _ _ cr;
        updated = eq_of_== _ _ up;
      },
  λ same. (noted-eq-nil (checks p r)).1 (
    ==_of_eq _ _ same.content_payload,
    (
      (same_vector_iff _ _).1 same.state_vector,
      (
        (same_list_iff same_entry same_entry_iff _ _).1 same.change_log,
        (
          (same_list_iff same_relationship same_relationship_iff _ _).1 same.relationships,
          (
            rw (==_of_eq _ _ same.dimension)
                ((same_list_iff (λ s t. s == t) eq_iff _ _).1 same.dimensions_secondary),
            (
              ==_of_eq _ _ same.phase,
              (
                eqb_of_eq _ _ same.revision,
                (
                  rw
                      (
                        (same_author_iff _ _).1 same.author,
                        ==_of_eq _ _ same.created,
                        ==_of_eq _ _ same.updated,
                      )
                      refl,
                  tt,
                ),
              ),
            ),
          ),
        ),
      ),
    ),
  ),
)
