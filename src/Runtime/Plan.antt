-- ===== src/Runtime/Plan.antt =====
-- The plan of a container: `resolveDependsOnPlan` of runtime/container.go and
-- `activeContainersForPlan` of runtime/transition.go.
pub mod Idle
use eka_core.Base.{
  String, ◌≢◌, Bool, false, ◌&&◌, none, some, List, [], ◌∷◌, ◌==◌, if◌then◌else◌, insert, Result,
  ok, err, ◌⊕◌, text_below, sort,
}
use eka_core.Conformance.Reference.{Reference, reference_line}
use eka_core.Exchange.{Relationship, KnowledgeUnit}
use eka_core.Store.Rows.{Store}
use eka_core.Store.Query.{units, units_by_project}
use eka_core.Runtime.World.{
  World, Failure, containers_unreadable, no_plan, several_plans, out_of_fuel,
}
use eka_core.Runtime.Units.{by_line, of_type, target_of}

-- The map from each line to the last plan reference with that line.
unfoldable pub plan_step :
    KnowledgeUnit → List (String × Reference) → Relationship → List (String × Reference)
plan_step u m rel =
    if rel.ty == "depends-on"
    then elim (target_of u rel) [
      | none ↦ m
      | some r ↦ if r.ty == "plan" then insert (reference_line r) r m else m
    ]
    else m

pub plan_refs :
    KnowledgeUnit → List (String × Reference) → List Relationship → List (String × Reference)
unfolding plan_step
plan_refs u m [] = m
plan_refs u m (rel ∷ rels) = plan_refs u (plan_step u m rel) rels

pub exactly_one : List (String × Reference) → Result Failure Reference
exactly_one [] = err no_plan
exactly_one ((line, r) ∷ []) = ok r
exactly_one (x ∷ y ∷ m) = err several_plans

unfoldable pub resolve_depends_on_plan : KnowledgeUnit → Result Failure Reference
unfolding plan_refs exactly_one
resolve_depends_on_plan u = exactly_one (plan_refs u [] u.relationships)

-- `ref.Namespace + "/plan:" + ref.ID`
unfoldable pub plan_line : Reference → String
plan_line r = r.namespace ⊕ ("/plan:" ⊕ r.id)

-- The rows of `by_line` that are active and whose plan is the given one.
unfoldable pub derives_from_plan : String → KnowledgeUnit → Bool
derives_from_plan line u =
    u.state_vector.container_state == "active"
    && elim (resolve_depends_on_plan u) [ err e ↦ false | ok r ↦ plan_line r == line ]

pub lines_where : (KnowledgeUnit → Bool) → List (String × KnowledgeUnit) → List String
lines_where test [] = []
lines_where test ((line, u) ∷ m) =
    let rest = lines_where test m in if test u then line ∷ rest else rest

-- An error where the source answers that the project cannot be read.
unfoldable pub active_containers_for_plan :
    World → Store → String → String → Result Failure (List String)
unfolding lines_where
active_containers_for_plan w s project line = elim (units_by_project w.codec s project) [
  | err e ↦ err containers_unreadable
  | ok units ↦
      ok (sort text_below (lines_where (derives_from_plan line) (by_line (of_type "ctr" units))))
]

exactly_one_answers : (m : List (String × Reference)) → exactly_one m ≢ err out_of_fuel
unfolding exactly_one
exactly_one_answers [] e = cc
exactly_one_answers ((line, r) ∷ []) e = cc
exactly_one_answers (x ∷ y ∷ m) e = cc

pub plan_answers : (ctr : KnowledgeUnit) → resolve_depends_on_plan ctr ≢ err out_of_fuel
unfolding resolve_depends_on_plan
plan_answers ctr = exactly_one_answers (plan_refs ctr [] ctr.relationships)
