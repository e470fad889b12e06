-- ===== src/Runtime/Container/Completion.antt =====
-- The gate of a completion.
use mathlib.Core.Path.{subst}
use eka_core.Base.{
  String, ◌≡◌, refl, ap, ◌⊎◌, inl, inr, false, List, [], ◌∷◌, map, ◌==◌, Bool-cases, eq_of_==,
  filter, Member, List-cases, Result, ok, err, text_below, sort, Member-filter,
}
use eka_core.Conformance.State.{domain_container_state}
use eka_core.Conformance.Reference.{Reference}
use eka_core.Exchange.{AuthorIdentity, KnowledgeUnit}
use eka_core.Store.Rows.{Store, StoreError}
use eka_core.Store.Query.{units_by_project}
use eka_core.Runtime.World.{TransitionResult, World, Failure, items_pending}
use eka_core.Runtime.Gates.{container_work_items}
use eka_core.Runtime.Publish.{publish_state_transition}
use eka_core.Runtime.Container.{is_pending, pending_text, complete_container}

is_pending-eq-false :
    (u : KnowledgeUnit)
    → is_pending u ≡ false
    → (u.state_vector.execution_state ≡ "done") ⊎ (u.state_vector.execution_state ≡ "canceled")
unfolding is_pending
is_pending-eq-false u h =
    let state = u.state_vector.execution_state in
    elim (Bool-cases (state == "done")) [
      | inl done ↦ inl (eq_of_== state _ done)
      | inr more ↦ elim (Bool-cases (state == "canceled")) [
        | inl canceled ↦ inr (eq_of_== state _ canceled)
        | inr left ↦ absurd (cc (rw (more, left, is_pending) at h))
      ]
    ]

-- A container is completed only when each work item that was found for it is done or canceled.
pub completion_needs_done :
    (w : World) (s : Store) (project source_repo : String) (ref : Reference)
    (current : KnowledgeUnit) (from to : String) (by : AuthorIdentity) (after : Store)
    (result : TransitionResult) (item : KnowledgeUnit)
    → complete_container w s project source_repo ref current from to by ≡ ok (after, result)
    → Member item (container_work_items w s project ref)
    → (item.state_vector.execution_state ≡ "done")
      ⊎ (item.state_vector.execution_state ≡ "canceled")
unfolding complete_container
completion_needs_done w s project source_repo ref current from to by after result item e m =
    let items = container_work_items w s project ref in
    elim (List-cases (filter is_pending items)) [
      | inr (u, us, pending) ↦ absurd (cc (rw (pending, complete_container) at e))
      | inl clear ↦ is_pending-eq-false item (elim (Bool-cases (is_pending item)) [
        | inr f ↦ f
        | inl t ↦
            absurd (subst (Member item) clear ((Member-filter is_pending item items).1 (m, t)))
      ])
    ]

-- Where the units of the project cannot be read, the gate finds no work item, so it lets the
-- completion through to the publication.
pub completion_of_unreadable :
    (w : World) (s : Store) (project source_repo : String) (ref : Reference)
    (current : KnowledgeUnit) (from to : String) (by : AuthorIdentity) (failure : StoreError)
    → units_by_project w.codec s project ≡ err failure
    → complete_container w s project source_repo ref current from to by
      ≡ publish_state_transition w s project source_repo current from to domain_container_state by
unfolding complete_container container_work_items filter
completion_of_unreadable w s project source_repo ref current from to by failure e =
    let no_items : container_work_items w s project ref ≡ [] = rw (e, container_work_items) refl in
    let publication =
      publish_state_transition w s project source_repo current from to domain_container_state by in
    ap
      (λ (items : List KnowledgeUnit).
        elim (filter is_pending items) as (λ x. Result Failure (Store × TransitionResult)) [
          | u ∷ us ↦ err (items_pending (sort text_below (map pending_text (u ∷ us))))
          | [] ↦ publication
        ])
      no_items
