-- ===== src/Runtime/Plan/Idle.antt =====
-- runtime/transition.go: what `activeContainersForPlan` has excluded when it finds no container.
use text.Mathlib.TextLemmas.{append_assoc}
use text.Mathlib.TextLemmas.{append_assoc}
use text.Mathlib.TextLemmas.{append_assoc}
use text.Mathlib.TextLemmas.{append_assoc}
use eka_core.Base.{
  String, ◌≡◌, refl, sym, ap, ◌∙◌, ◌⊎◌, inl, inr, Bool, true, false, none, some, List, [], ◌∷◌,
  eq_refl, ◌==◌, Bool-cases, ==_of_eq, not-both, filter, Member, All, lookup, insert, Result-cases,
  eq_of_ok-eq-ok, ok, ◌⊕◌, text_below, sort, sort-eq-nil, All-iff,
}
use eka_core.Exchange.{Relationship, KnowledgeUnit}
use eka_core.Conformance.Reference.{Reference, line_form, reference_line}
use eka_core.Store.Rows.{Store}
use eka_core.Store.Query.{units_by_project}
use eka_core.Runtime.World.{World}
use eka_core.Runtime.Units.{latest, line_key, by_line, of_type, target_of}
use eka_core.Runtime.Latest.{lookup-by_line}
use eka_core.Runtime.Plan.{
  plan_step, plan_refs, exactly_one, resolve_depends_on_plan, plan_line, derives_from_plan,
  lines_where, active_containers_for_plan,
}

-- The relationship reads as the plan of the line.
abbrev pub NamesPlan : KnowledgeUnit → String → Relationship → Type 0
NamesPlan u line rel =
    (r : Reference) × (rel.ty ≡ "depends-on")
    × (target_of u rel ≡ some r)
    × (r.ty ≡ "plan")
    × (reference_line r ≡ line)

-- The relationship reads as no plan: it is of another type, or reads as nothing or as another type.
abbrev pub NamesNoPlan : KnowledgeUnit → Relationship → Type 0
NamesNoPlan u rel =
    ((rel.ty == "depends-on") ≡ false)
    ⊎ ((target_of u rel ≡ none)
        ⊎ ((r : Reference) × (target_of u rel ≡ some r) × ((r.ty == "plan") ≡ false)))

-- The unit depends on the plan of the line, and on no other plan.
abbrev pub DependsOnlyOn : String → KnowledgeUnit → Type 0
DependsOnlyOn line u =
    ((rel : Relationship) × Member rel u.relationships × NamesPlan u line rel)
    × All (λ (rel : Relationship). NamesPlan u line rel ⊎ NamesNoPlan u rel) u.relationships

-- One row, for the plan of the line.
Single : String → List (String × Reference) → Type 0
Single line m = (r : Reference) × (m ≡ (line, r) ∷ []) × (r.ty ≡ "plan") × (reference_line r ≡ line)

plan_line-reference_line : (r : Reference) → r.ty ≡ "plan" → plan_line r ≡ reference_line r
unfolding plan_line reference_line line_form
plan_line-reference_line r e =
    let front : ("/" ⊕ ("plan" ⊕ ":")) ⊕ r.id ≡ "/" ⊕ ("plan" ⊕ (":" ⊕ r.id)) =
      append_assoc "/" ("plan" ⊕ ":") r.id ∙ ap (λ x. "/" ⊕ x) (append_assoc "plan" ":" r.id) in
    ap (λ x. r.namespace ⊕ x) front ∙ ap (λ t. r.namespace ⊕ ("/" ⊕ (t ⊕ (":" ⊕ r.id)))) (sym e)

module _ (u : KnowledgeUnit) (line : String) where
  step_of_plan :
      (m : List (String × Reference)) (rel : Relationship) (r : Reference)
      → rel.ty ≡ "depends-on"
      → target_of u rel ≡ some r
      → r.ty ≡ "plan"
      → reference_line r ≡ line
      → plan_step u m rel ≡ insert line r m
  unfolding plan_step
  step_of_plan m rel r dep read is_plan same =
      rw (==_of_eq rel.ty "depends-on" dep, read, ==_of_eq r.ty "plan" is_plan, plan_step)
        (ap (λ (k : String). insert k r m) same)

  step_of_none :
      (m : List (String × Reference)) (rel : Relationship)
      → NamesNoPlan u rel
      → plan_step u m rel ≡ m
  unfolding plan_step
  step_of_none m rel (inl other) = rw (other, plan_step) refl
  step_of_none m rel (inr what) = elim (Bool-cases (rel.ty == "depends-on")) [
    | inr other ↦ rw (other, plan_step) refl
    | inl dep ↦ elim what [
      | inl unread ↦ rw (dep, unread, plan_step) refl
      | inr (r, read, no_plan_type) ↦ rw (dep, read, no_plan_type, plan_step) refl
    ]
  ]

  Single-insert :
      (m : List (String × Reference)) (r : Reference)
      → (m ≡ []) ⊎ Single line m
      → r.ty ≡ "plan"
      → reference_line r ≡ line
      → Single line (insert line r m)
  unfolding insert Single
  Single-insert m r (inl e) is_plan same = (r, rw e refl, is_plan, same)
  Single-insert m r (inr (r0, e, p0, s0)) is_plan same =
      (r, rw (e, eq_refl line) refl, is_plan, same)

  Single-kept :
      (rels : List Relationship) (m : List (String × Reference))
      → All (λ (rel : Relationship). NamesPlan u line rel ⊎ NamesNoPlan u rel) rels
      → Single line m
      → Single line (plan_refs u m rels)
  unfolding plan_refs
  Single-kept [] m all s = s
  Single-kept (rel ∷ rels) m (inl (r, dep, read, is_plan, same), all) s =
      Single-kept rels (plan_step u m rel) all
        (rw (step_of_plan m rel r dep read is_plan same) (Single-insert m r (inr s) is_plan same))
  Single-kept (rel ∷ rels) m (inr none_named, all) s =
      Single-kept rels (plan_step u m rel) all (rw (step_of_none m rel none_named) s)

  Single-found :
      (rels : List Relationship) (named : Relationship)
      → Member named rels
      → NamesPlan u line named
      → All (λ (rel : Relationship). NamesPlan u line rel ⊎ NamesNoPlan u rel) rels
      → Single line (plan_refs u [] rels)
  unfolding plan_refs
  Single-found [] named there n all = absurd there
  Single-found (rel ∷ rels) named (inl here) n (first, all) =
      let (r, dep, read, is_plan, same) = rw here at n in
      Single-kept rels (plan_step u [] rel) all (
        rw (step_of_plan [] rel r dep read is_plan same)
          (Single-insert [] r (inl refl) is_plan same))
  Single-found (rel ∷ rels) named (inr later) n (first, all) = elim first [
    | inl (r, dep, read, is_plan, same) ↦ Single-kept rels (plan_step u [] rel) all (
        rw (step_of_plan [] rel r dep read is_plan same)
          (Single-insert [] r (inl refl) is_plan same))
    | inr none_named ↦ rw (step_of_none [] rel none_named) (Single-found rels named later n all)
  ]

  derives_from_plan-DependsOnlyOn :
      u.state_vector.container_state ≡ "active"
      → DependsOnlyOn line u
      → derives_from_plan line u ≡ true
  unfolding derives_from_plan resolve_depends_on_plan exactly_one Single
  derives_from_plan-DependsOnlyOn active ((rel, there, named), all) =
      let (r, one, is_plan, same) = Single-found u.relationships rel there named all in
      rw
        (
          ==_of_eq _ _ active,
          one,
          ==_of_eq (plan_line r) line (plan_line-reference_line r is_plan ∙ same),
        )
        refl

lines_where-eq-nil :
    (test : KnowledgeUnit → Bool) (m : List (String × KnowledgeUnit)) (k : String)
    (u : KnowledgeUnit)
    → lines_where test m ≡ []
    → lookup k m ≡ some u
    → test u ≡ false
unfolding lines_where lookup
lines_where-eq-nil test [] k u e found = absurd (cc)
lines_where-eq-nil test ((line, v) ∷ m) k u e found = elim (Bool-cases (test v)) [
  | inl hit ↦ absurd (cc (rw hit at e))
  | inr miss ↦ elim (Bool-cases (line == k)) [
    | inl here ↦ let same : v ≡ u = cc (rw here at found) in rw (← same) miss
    | inr later ↦ lines_where-eq-nil test m k u (rw miss at e) (rw later at found)
  ]
]

-- The current unit of a container line of the project is active and depends on the plan alone.
pub record IsActiveDependent (us : List KnowledgeUnit) (line : String) (u : KnowledgeUnit)
    : Type 0 where
  pub current :
      latest (filter (λ (x : KnowledgeUnit). line_key x == line_key u) (of_type "ctr" us)) ≡ some u
  pub active : u.state_vector.container_state ≡ "active"
  pub depends : DependsOnlyOn line u

-- The scan for a plan's active containers finds none only if no unit of the project is such a one.
pub idle-IsActiveDependent :
    (w : World) (s : Store) (project line : String)
    → active_containers_for_plan w s project line ≡ ok []
    → (us : List KnowledgeUnit) × (units_by_project w.codec s project ≡ ok us)
      × All (λ (u : KnowledgeUnit). ¬ IsActiveDependent us line u) us
unfolding active_containers_for_plan
idle-IsActiveDependent w s project line idle =
    elim (Result-cases (units_by_project w.codec s project)) [
      | inr (e, failed) ↦ absurd (cc (rw (failed, active_containers_for_plan) at idle))
      | inl (us, read) ↦
          let rows = by_line (of_type "ctr" us) in
          let offenders = lines_where (derives_from_plan line) rows in
          let nothing =
            eq_of_ok-eq-ok (sort text_below offenders) []
              (rw (read, active_containers_for_plan) at idle) in
          let unmatched = (sort-eq-nil text_below offenders).0 nothing in
          (
            us,
            read,
            (All-iff (λ (u : KnowledgeUnit). ¬ IsActiveDependent us line u) us).1 (λ u m dependent.
                not-both (derives_from_plan-DependsOnlyOn u line dependent.active dependent.depends)
                  (lines_where-eq-nil (derives_from_plan line) rows (line_key u) u unmatched
                    (lookup-by_line (line_key u) (of_type "ctr" us) ∙ dependent.current))),
          )
    ]
