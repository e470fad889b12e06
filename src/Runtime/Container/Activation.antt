-- ===== src/Runtime/Container/Activation.antt =====
-- The gates of an activation.
use mathlib.Core.Path.{subst}
use eka_core.Base.{
  String, ◌≡◌, refl, sym, ◌∙◌, ◌≢◌, ◌⊎◌, inl, inr, Bool, not, some, List, [], ◌∷◌, ◌==◌, Bool-cases,
  Option-cases, eq_of_==, ==_of_eq, filter, Member, List-cases, contains, >>=-eq-ok, eq_of_ok-eq-ok,
  if-eq-ok, if_err-eq-ok, if_else_err-eq-ok, ok, text_below, sort, mem-sort, contains_iff,
  Member-filter,
}
use eka_core.Conformance.Reference.{Reference}
use eka_core.Exchange.{AuthorIdentity, KnowledgeUnit}
use eka_core.Store.Rows.{Store}
use eka_core.Store.Put.{Put}
use eka_core.Store.Query.{units_by_line}
use eka_core.Runtime.World.{TransitionResult, World, from_store, from_store-ok}
use eka_core.Runtime.Units.{latest}
use eka_core.Runtime.Plan.{resolve_depends_on_plan, plan_line}
use eka_core.Runtime.Closure.{plan_closure}
use eka_core.Runtime.Publish.{transitioned, serialize}
use eka_core.Runtime.Container.{
  ActiveContainer, other_active_containers, disjoint_from, activation_gate, lock_put,
  lock_plan_puts, activate_container,
}

-- Both closures are known and have no line in common.
abbrev pub AreDisjoint : World → Store → KnowledgeUnit → KnowledgeUnit → Type 0
AreDisjoint w s a b =
    (mine : List String) × (theirs : List String) × (plan_closure w s a ≡ ok mine)
    × (plan_closure w s b ≡ ok theirs)
    × ((line : String) → Member line mine → ¬ Member line theirs)

none_shared :
    (mine theirs : List String)
    → sort text_below (filter (contains theirs) mine) ≡ []
    → (line : String) → Member line mine
    → ¬ Member line theirs
none_shared mine theirs e line m t =
    let kept = (Member-filter (contains theirs) line mine).1 (m, (contains_iff theirs line).1 t) in
    subst (Member line) e ((mem-sort text_below line (filter (contains theirs) mine)).1 kept)

module _ (w : World) (s : Store) where
  disjoint_from-all :
      (mine : List String) (cs : List ActiveContainer) (b : Bool) (c : ActiveContainer)
      → disjoint_from w s mine cs ≡ ok b
      → Member c cs
      → (theirs : List String) × (plan_closure w s c.current ≡ ok theirs)
        × ((line : String) → Member line mine → ¬ Member line theirs)
  unfolding disjoint_from
  disjoint_from-all mine [] b c e m = absurd m
  disjoint_from-all mine (x ∷ cs) b c e m =
      let (theirs, found, rest) = >>=-eq-ok (plan_closure w s x.current) _ e in
      elim (List-cases (sort text_below (filter (contains theirs) mine))) [
        | inr (shared, more, some_shared) ↦ absurd (cc (rw some_shared at rest))
        | inl clear ↦ elim m [
          | inl same ↦ (theirs, rw same found, none_shared mine theirs clear)
          | inr later ↦ disjoint_from-all mine cs b c (rw clear at rest) later
        ]
      ]

  gate-all :
      (source_repo : String) (current : KnowledgeUnit) (others : List ActiveContainer) (b : Bool)
      (c : ActiveContainer)
      → activation_gate w s source_repo current others ≡ ok b
      → Member c others
      → (c.source_repo ≢ source_repo) × AreDisjoint w s current c.current
  unfolding activation_gate
  gate-all source_repo current others b c e m =
      let same = λ (x : ActiveContainer). x.source_repo == source_repo in
      let cross = λ (x : ActiveContainer). not (x.source_repo == source_repo) in
      elim (List-cases (filter same others)) [
        | inr (x, xs, busy_here) ↦ absurd (cc (rw (busy_here, activation_gate) at e))
        | inl free ↦
            let other_repo : c.source_repo ≢ source_repo = λ p.
              subst (Member c) free
                ((Member-filter same c others).1 (m, ==_of_eq c.source_repo source_repo p)) in
            let foreign : Member c (filter cross others) = (Member-filter cross c others).1 (
              m,
              elim (Bool-cases (c.source_repo == source_repo)) [
                | inl here ↦ absurd (other_repo (eq_of_== c.source_repo source_repo here))
                | inr away ↦ rw away refl
              ],
            ) in
            elim (List-cases (filter cross others)) [
              | inl nobody ↦ absurd (subst (Member c) nobody foreign)
              | inr (x, xs, some_cross) ↦
                  let (mine, found, rest) =
                    >>=-eq-ok (plan_closure w s current) _
                      (rw (free, some_cross, activation_gate) at e) in
                  let (theirs, theirs_found, apart) =
                    disjoint_from-all mine (x ∷ xs) b c rest
                      (subst (Member c) some_cross foreign) in
                  (other_repo, (mine, theirs, found, theirs_found, apart))
            ]
      ]

-- A container is activated only while every other active container of the project belongs to
-- another repository, and its plan closure is known and shares no line with the known plan closure
-- of any of them.
pub activation_excludes :
    (w : World) (s : Store) (project source_repo : String) (ref : Reference)
    (current : KnowledgeUnit) (from to : String) (by : AuthorIdentity) (after : Store)
    (result : TransitionResult) (others : List ActiveContainer) (c : ActiveContainer)
    → activate_container w s project source_repo ref current from to by ≡ ok (after, result)
    → other_active_containers w s project ref ≡ ok others
    → Member c others
    → (c.source_repo ≢ source_repo) × AreDisjoint w s current c.current
unfolding activate_container
activation_excludes w s project source_repo ref current from to by after result others c e read m =
    let (found, read_too, rest) = >>=-eq-ok (other_active_containers w s project ref) _ e in
    let (free, passed, locking) =
      >>=-eq-ok (activation_gate w s source_repo current found) _ rest in
    let same = eq_of_ok-eq-ok found others (sym read_too ∙ read) in
    gate-all w s source_repo current found free c passed (rw same m)

lock_put-eq-ok :
    (w : World) (project source_repo line : String) (by : AuthorIdentity) (plan : KnowledgeUnit)
    (locks : List Put)
    → lock_put w project source_repo line by plan ≡ ok locks
    → (plan.state_vector.planning_state ≡ "approved")
      ⊎ (plan.state_vector.planning_state ≡ "immutable")
unfolding lock_put
lock_put-eq-ok w project source_repo line by plan locks e =
    let state = plan.state_vector.planning_state in
    elim (if-eq-ok (state == "approved") _ _ e) [
      | inl (approved, put) ↦ inl (eq_of_== state _ approved)
      | inr (no_approval, rest) ↦
          let (kept, last) = if_err-eq-ok (state == "superseded") _ _ rest in
          let (locked, put) = if_else_err-eq-ok (state == "immutable") _ _ last in
          inr (eq_of_== state _ locked)
    ]

-- A container is activated only if it names exactly one plan that is stored, and the plan's current
-- unit is approved or immutable.
pub activation_needs_plan :
    (w : World) (s : Store) (project source_repo : String) (ref : Reference)
    (current : KnowledgeUnit) (from to : String) (by : AuthorIdentity) (after : Store)
    (result : TransitionResult)
    → activate_container w s project source_repo ref current from to by ≡ ok (after, result)
    → (plan_ref : Reference) × (found : List KnowledgeUnit) × (plan : KnowledgeUnit)
      × (resolve_depends_on_plan (transitioned w.today "container-state" from "active" by current)
          ≡ ok plan_ref)
      × (units_by_line w.codec s plan_ref.namespace plan_ref.ty plan_ref.id ≡ ok found)
      × (latest found ≡ some plan)
      × ((plan.state_vector.planning_state ≡ "approved")
          ⊎ (plan.state_vector.planning_state ≡ "immutable"))
unfolding activate_container lock_plan_puts lock_put
activation_needs_plan w s project source_repo ref current from to by after result e =
    let (others, read, rest) = >>=-eq-ok (other_active_containers w s project ref) _ e in
    let (free, passed, locking) =
      >>=-eq-ok (activation_gate w s source_repo current others) _ rest in
    let next = transitioned w.today "container-state" from "active" by current in
    let (batch, batched, stored) =
      >>=-eq-ok (lock_plan_puts w s project source_repo next by) _ locking in
    let (plan_ref, resolved, e1) = >>=-eq-ok (resolve_depends_on_plan next) _ batched in
    let (json, serialized, e2) = >>=-eq-ok (serialize w next) _ e1 in
    let query = units_by_line w.codec s plan_ref.namespace plan_ref.ty plan_ref.id in
    let (found, read_line, e3) = >>=-eq-ok (from_store query) _ e2 in
    elim (Option-cases (latest found)) [
      | inl lost ↦ absurd (cc (rw lost at e3))
      | inr (plan, is_latest) ↦
          let (locks, locked, answer) =
            >>=-eq-ok (lock_put w project source_repo (plan_line plan_ref) by plan) _
              (rw is_latest at e3) in
          (
            plan_ref,
            found,
            plan,
            resolved,
            from_store-ok query found read_line,
            is_latest,
            lock_put-eq-ok w project source_repo (plan_line plan_ref) by plan locks locked,
          )
    ]
