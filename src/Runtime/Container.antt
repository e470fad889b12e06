-- ===== src/Runtime/Container.antt =====
-- runtime/container.go and runtime/transition.go: the container-state branch.
pub mod Completion
pub mod Activation
use eka_core.Base.{
  String, Bool, true, not, ◌&&◌, ◌||◌, Option, none, some, List, [], ◌∷◌, map, ltb, eqb, ◌==◌,
  if◌then◌else◌, filter, lookup, insert, contains, Result, ◌>>=◌, ok, err, ◌⊕◌, text_below, sort,
}
use eka_core.Conformance.State.{
  domain_planning_state, domain_container_state, domain_values, index_of, before,
}
use eka_core.Conformance.Reference.{Reference, reference_line}
use eka_core.Exchange.{AuthorIdentity, KnowledgeUnit}
use eka_core.Store.Rows.{RefRow, Store}
use eka_core.Store.Put.{Put, put_units}
use eka_core.Store.Query.{unit, units_by_line, refs_by_project}
use eka_core.Runtime.World.{
  TransitionRequest, TransitionResult, World, store_env, Failure, from_store, not_in_table,
  forward_only, is_terminal, containers_unreadable, container_active, closure_shared, plan_missing,
  plan_retired, plan_not_approved, items_pending,
}
use eka_core.Runtime.Units.{version_of, latest}
use eka_core.Runtime.Gates.{container_work_items}
use eka_core.Runtime.Plan.{resolve_depends_on_plan, plan_line}
use eka_core.Runtime.Closure.{plan_closure}
use eka_core.Runtime.Publish.{
  transitioned, ref_of, serialize, plain_result, publish_state_transition,
}

pub record ActiveContainer : Type 0 where
  pub line : String
  pub source_repo : String
  pub current : KnowledgeUnit

-- The row takes the place of the line's current one: a higher instance, or the same instance from a
-- smaller source_repo.
unfoldable pub replaces : RefRow → KnowledgeUnit → Option ActiveContainer → Bool
replaces r u none = true
replaces r u (some c) =
    ltb (version_of c.current) (version_of u)
    || (eqb (version_of u) (version_of c.current) && text_below r.ref.source_repo c.source_repo)

abbrev pub row_line : RefRow → String
row_line r = r.ref.namespace ⊕ ("/" ⊕ (r.ref.ty ⊕ (":" ⊕ r.ref.id)))

unfoldable pub add_row :
    RefRow → KnowledgeUnit → List (String × ActiveContainer) → List (String × ActiveContainer)
add_row r u m =
    if replaces r u (lookup (row_line r) m)
    then insert (row_line r)
        (record { line = row_line r; source_repo = r.ref.source_repo; current = u }) m
    else m

current_containers :
    World
    → Store
    → List (String × ActiveContainer)
    → List RefRow
    → Result Failure (List (String × ActiveContainer))
current_containers w s m [] = ok m
current_containers w s m (r ∷ rs) = elim (unit w.codec s r.ref.form) [
  | err e ↦ err containers_unreadable
  | ok none ↦ err containers_unreadable
  | ok (some u) ↦ current_containers w s (add_row r u m) rs
]

entries : List (String × ActiveContainer) → List ActiveContainer
entries [] = []
entries ((line, c) ∷ m) = c ∷ entries m

unfoldable pub other_active_containers :
    World → Store → String → Reference → Result Failure (List ActiveContainer)
unfolding current_containers entries
other_active_containers w s project target =
    current_containers w s [] (filter (λ r. r.ref.ty == "ctr") (refs_by_project s project)) >>= λ m.
    ok (
      sort (λ a b. text_below a.line b.line)
        (filter
          (λ c.
            not (c.line == reference_line target)
            && c.current.state_vector.container_state == "active")
          (entries m)))

-- The loop over the active containers of other repositories.
unfoldable pub disjoint_from :
    World → Store → List String → List ActiveContainer → Result Failure Bool
disjoint_from w s mine [] = ok true
disjoint_from w s mine (c ∷ cs) =
    let rest = disjoint_from w s mine cs in
    plan_closure w s c.current >>= λ other. elim (sort text_below (filter (contains other) mine)) [
      | [] ↦ rest
      | shared ∷ more ↦ err (closure_shared shared c.line)
    ]

-- The gate of an activation: no active container of the same repository, and no shared line with
-- one of another repository. An error of `plan_closure` is shown in the refusal.
unfoldable pub activation_gate :
    World → Store → String → KnowledgeUnit → List ActiveContainer → Result Failure Bool
activation_gate w s source_repo current others =
    elim (filter (λ (c : ActiveContainer). c.source_repo == source_repo) others) [
      | c ∷ cs ↦ err (container_active c.line)
      | [] ↦ elim (filter (λ (c : ActiveContainer). not (c.source_repo == source_repo)) others) [
        | [] ↦ ok true
        | c ∷ cs ↦ plan_closure w s current >>= λ mine. disjoint_from w s mine (c ∷ cs)
      ]
    ]

abbrev pub put_of : World → String → String → String → String → KnowledgeUnit → Put
put_of w project source_repo updated_at json u = record {
  unit_json = json;
  content = u.content_payload;
  ref = ref_of project source_repo updated_at u;
}

-- The puts after the container's own: the plan's, unless it is locked already.
unfoldable pub lock_put :
    World → String → String → String → AuthorIdentity → KnowledgeUnit → Result Failure (List Put)
lock_put w project source_repo line by plan =
    let state = plan.state_vector.planning_state in
    let locked = transitioned w.today domain_planning_state state "immutable" by plan in
    if state == "approved"
    then (serialize w locked >>= λ json. ok (put_of w project source_repo w.today json locked ∷ []))
    else if state == "superseded"
    then err (plan_retired line)
    else if state == "immutable"
    then ok []
    else err (plan_not_approved line state)

-- The batch of an activation, and the line of the plan.
unfoldable pub lock_plan_puts :
    World
    → Store
    → String
    → String
    → KnowledgeUnit
    → AuthorIdentity
    → Result Failure (Put × List Put × String)
lock_plan_puts w s project source_repo ctr by = resolve_depends_on_plan ctr >>= λ plan_ref.
    serialize w ctr >>= λ json.
    from_store (units_by_line w.codec s plan_ref.namespace plan_ref.ty plan_ref.id) >>= λ found.
    elim (latest found) [
      | none ↦ err (plan_missing (plan_line plan_ref))
      | some plan ↦ lock_put w project source_repo (plan_line plan_ref) by plan >>= λ locks.
          ok (put_of w project source_repo w.now json ctr, locks, plan_line plan_ref)
    ]

-- The result of an activation, by the hashes of the batch.
unfoldable pub activation_result :
    String → String → String → AuthorIdentity → String → List String → TransitionResult
activation_result target from to by plan [] = plain_result target from to by "" ""
activation_result target from to by plan (h ∷ []) = plain_result target from to by h ""
activation_result target from to by plan (h ∷ locked ∷ hs) =
    record (plain_result target from to by h "") { locked_plan = plan; locked_plan_hash = locked }

unfoldable pub activate_container :
    World
    → Store
    → String
    → String
    → Reference
    → KnowledgeUnit
    → String
    → String
    → AuthorIdentity
    → Result Failure (Store × TransitionResult)
activate_container w s project source_repo ref current from to by =
    other_active_containers w s project ref >>= λ others.
    activation_gate w s source_repo current others >>= λ free.
    lock_plan_puts w s project source_repo
      (transitioned w.today domain_container_state from "active" by current) by
    >>= λ (own, locks, plan).
        from_store (put_units (store_env w) (own ∷ locks) s) >>= λ (after, hashes).
        ok (after, activation_result (reference_line ref) from to by plan hashes)

unfoldable pub is_pending : KnowledgeUnit → Bool
is_pending u =
    not (u.state_vector.execution_state == "done")
    && not (u.state_vector.execution_state == "canceled")

abbrev pub pending_text : KnowledgeUnit → String
pending_text u =
    u.identity.ty ⊕ (":" ⊕ (u.identity.id ⊕ (" (" ⊕ (u.state_vector.execution_state ⊕ ")"))))

unfoldable pub complete_container :
    World
    → Store
    → String
    → String
    → Reference
    → KnowledgeUnit
    → String
    → String
    → AuthorIdentity
    → Result Failure (Store × TransitionResult)
complete_container w s project source_repo ref current from to by =
    elim (filter is_pending (container_work_items w s project ref)) [
      | u ∷ us ↦ err (items_pending (sort text_below (map pending_text (u ∷ us))))
      | [] ↦
          publish_state_transition w s project source_repo current from to domain_container_state by
    ]

-- The destination of the request.
unfoldable pub container_destination : TransitionRequest → String → Result Failure String
container_destination req from =
    if req.forward || req.backward
    then if req.backward
      then err forward_only
      else if from == "planned"
      then ok "active"
      else if from == "active"
      then ok "completed"
      else if from == "completed"
      then err (is_terminal from)
      else ok req.to
    else ok req.to

unfoldable pub is_container_step : String → String → Bool
is_container_step from to =
    (from == "planned" && to == "active") || (from == "active" && to == "completed")

unfoldable pub transition_container_state :
    World
    → Store
    → String
    → String
    → Reference
    → KnowledgeUnit
    → String
    → TransitionRequest
    → AuthorIdentity
    → Result Failure (Store × TransitionResult)
transition_container_state w s project source_repo ref current from req by =
    container_destination req from >>= λ to.
    if is_container_step from to
    then if from == "planned"
      then activate_container w s project source_repo ref current from to by
      else complete_container w s project source_repo ref current from to by
    else let values = domain_values domain_container_state "ctr" in
      if before (index_of values from) (index_of values to)
      then err (not_in_table from to)
      else err forward_only
