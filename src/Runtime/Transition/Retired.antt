-- ===== src/Runtime/Transition/Retired.antt =====
-- The gates of the states that end a plan or an ADR.
use eka_core.Base.{
  All, ℕ, String, ◌≡◌, sym, ap, ◌∙◌, ◌⊎◌, inl, inr, Bool, true, not, ◌&&◌, List, ◌==◌,
  if◌then◌else◌, Bool-cases, eq_of_==, ==_of_eq, &&_elim, mem-any, Member, List-cases, ◌>>=◌,
  >>=-eq-ok, Result-cases, if-eq-ok, if_err-eq-ok, if_else_err-eq-ok, ok, err,
}
use eka_core.Conformance.State.{domain_content_state, domain_planning_state, domain_values}
use eka_core.Conformance.Reference.{Reference, reference_line}
use eka_core.Exchange.{AuthorIdentity, KnowledgeUnit}
use eka_core.Store.Rows.{Store}
use eka_core.Store.Query.{units_by_project}
use eka_core.Runtime.World.{TransitionRequest, TransitionResult, World, not_in_table, plan_lock}
use eka_core.Runtime.Units.{version_of}
use eka_core.Runtime.Plan.{active_containers_for_plan}
use eka_core.Runtime.Plan.Idle.{IsActiveDependent, idle-IsActiveDependent}
use eka_core.Runtime.Publish.{publish_state_transition}
use eka_core.Runtime.Publish.Outcome.{publish_state_transition-eq-ok}
use eka_core.Runtime.PlanState.{plan_destination, retirement_gate, transition_plan_state}
use eka_core.Runtime.ContentState.{
  is_superseder, has_superseder, content_destination, is_next, transition_content_state,
}

superseder_found :
    (w : World) (s : Store) (project : String) (target : Reference) (version : ℕ)
    → has_superseder w s project target version ≡ true
    → (us : List KnowledgeUnit) × (u : KnowledgeUnit) × (units_by_project w.codec s project ≡ ok us)
      × Member u us
      × (is_superseder target version u ≡ true)
unfolding has_superseder
superseder_found w s project target version h =
    elim (Result-cases (units_by_project w.codec s project)) [
      | inr (e, failed) ↦ absurd (cc (rw (failed, has_superseder) at h))
      | inl (us, read) ↦
          let (u, m, t) =
            mem-any (is_superseder target version) us (rw (read, has_superseder) at h) in
          (us, u, read, m, t)
    ]

-- An ADR becomes superseded only if another unit of the project supersedes its current instance.
pub adr_needs_superseder :
    (w : World) (s : Store) (project source_repo : String) (ref : Reference)
    (current : KnowledgeUnit) (from : String) (req : TransitionRequest) (by : AuthorIdentity)
    (after : Store) (result : TransitionResult)
    → transition_content_state w s project source_repo ref current from req by ≡ ok (after, result)
    → ref.ty ≡ "adr"
    → result.to ≡ "superseded"
    → (us : List KnowledgeUnit) × (u : KnowledgeUnit) × (units_by_project w.codec s project ≡ ok us)
      × Member u us
      × (is_superseder ref (version_of current) u ≡ true)
unfolding transition_content_state
adr_needs_superseder w s project source_repo ref current from req by after result e adr ends =
    let (to, dest, rest) =
      >>=-eq-ok (content_destination (domain_values domain_content_state ref.ty) req from) _ e in
    let (next, checked) =
      if_else_err-eq-ok (is_next (domain_values domain_content_state ref.ty) from to) _ _ rest in
    let (open_gate, published) =
      if_err-eq-ok
        (ref.ty == "adr"
          && (to == "superseded" && not (has_superseder w s project ref (version_of current))))
        _ _ checked in
    let (same_from, same_to, put) =
      publish_state_transition-eq-ok w s project source_repo current from to domain_content_state by
        after result published in
    let ended : to ≡ "superseded" = sym same_to ∙ ends in
    elim (Bool-cases (has_superseder w s project ref (version_of current))) [
      | inl replaced ↦ superseder_found w s project ref (version_of current) replaced
      | inr alone ↦
          absurd (
            cc (rw (alone, ==_of_eq ref.ty "adr" adr, ==_of_eq to "superseded" ended) at open_gate))
    ]

-- A transition of a plan that succeeds either approves a draft, or supersedes an immutable plan. Then
-- no unit of the project is the current one of a container line, active, and depends on this plan and
-- on no other. An active container that depends on several plans is not looked at.
pub retirement_needs_idle :
    (w : World) (s : Store) (project source_repo : String) (ref : Reference)
    (current : KnowledgeUnit) (from : String) (req : TransitionRequest) (by : AuthorIdentity)
    (after : Store) (result : TransitionResult)
    → transition_plan_state w s project source_repo ref current from req by ≡ ok (after, result)
    → ((result.to ≡ "approved") × (from ≡ "draft"))
      ⊎ ((result.to ≡ "superseded")
          × (from ≡ "immutable")
          × ((us : List KnowledgeUnit) × (units_by_project w.codec s project ≡ ok us)
              × All (λ (u : KnowledgeUnit). ¬ IsActiveDependent us (reference_line ref) u) us))
unfolding transition_plan_state retirement_gate
retirement_needs_idle w s project source_repo ref current from req by after result e =
    let (to, dest, rest) = >>=-eq-ok (plan_destination req from) _ e in
    let publication =
      publish_state_transition w s project source_repo current from to domain_planning_state by in
    let retirement =
      retirement_gate w s project (reference_line ref) >>= λ (free : Bool). publication in
    let approval =
      if from == "draft" && to == "approved" then publication else err (not_in_table from to) in
    let (no_lock, steps) =
      if_err-eq-ok (from == "approved" && to == "immutable") plan_lock
        (if from == "immutable" && to == "superseded" then retirement else approval) rest in
    elim (if-eq-ok (from == "immutable" && to == "superseded") retirement approval steps) [
      | inl (retires, gated) ↦
          let (free, passed, published) =
            >>=-eq-ok (retirement_gate w s project (reference_line ref)) _ gated in
          let (offenders, read, judged) =
            >>=-eq-ok (active_containers_for_plan w s project (reference_line ref)) _ passed in
          let (a, b, put) =
            publish_state_transition-eq-ok w s project source_repo current from to
              domain_planning_state by after result published in
          let (p, q) = &&_elim (from == "immutable") (to == "superseded") retires in
          elim (List-cases offenders) [
            | inr (o, os, active) ↦ absurd (cc (rw active at judged))
            | inl idle ↦ inr (
              b ∙ eq_of_== to _ q,
              eq_of_== from _ p,
              idle-IsActiveDependent w s project (reference_line ref)
                  (read ∙ ap (λ (l : List String). ok l) idle),
            )
          ]
      | inr (stays, table) ↦
          let (approves, published) = if_else_err-eq-ok _ _ _ table in
          let (a, b, put) =
            publish_state_transition-eq-ok w s project source_repo current from to
              domain_planning_state by after result published in
          let (p, q) = &&_elim (from == "draft") (to == "approved") approves in
          inl (b ∙ eq_of_== to _ q, eq_of_== from _ p)
    ]
