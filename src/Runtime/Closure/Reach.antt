-- ===== src/Runtime/Closure/Reach.antt =====
-- runtime/transition.go, `planClosure`: the lines that dependencies lead to.
use mathlib.Core.Path.{subst}
use eka_core.Base.{
  ℕ, zero, suc, String, ◌≡◌, refl, sym, ◌∙◌, ◌↔◌, ◌⊎◌, inl, inr, true, not, List, [], ◌∷◌, ◌++◌,
  Bool-cases, filter, Member, contains, Result, >>=-eq-ok, ok, contains_iff, Member-append,
  Member-filter,
}
use eka_core.Conformance.Reference.{Reference}
use eka_core.Exchange.{KnowledgeUnit}
use eka_core.Store.Rows.{Store}
use eka_core.Runtime.World.{World, Failure}
use eka_core.Runtime.Plan.{resolve_depends_on_plan, plan_line}
use eka_core.Runtime.Closure.{successors, explore, closure_fuel, plan_closure}

-- `y` is `x`, or a line that the dependencies of a line reached from `x` name.
pub data Reaches (next : String → Result Failure (List String)) (x : String) : String → Type 0 where
  start : Reaches next x x
  step :
      {y z : String} (deps : List String)
      → Reaches next x y
      → next y ≡ ok deps
      → Member z deps
      → Reaches next x z

abbrev ok_lines : List String → Result Failure (List String)
ok_lines xs = ok xs

ok-injective : (xs ys : List String) → ok_lines xs ≡ ok_lines ys → xs ≡ ys
ok-injective xs ys e = cc

moved_on :
    (z line : String) (queue closure more : List String) {Q : Type 0}
    → (Q ↔ (Member z queue ⊎ Member z more))
    → Member z closure ⊎ Member z (line ∷ queue)
    → Member z (line ∷ closure) ⊎ Q
moved_on z line queue closure more split (inl old) = inl (inr old)
moved_on z line queue closure more split (inr (inl same)) = inl (inl same)
moved_on z line queue closure more split (inr (inr q)) = inr (split.1 (inl q))

module _ (next : String → Result Failure (List String)) (x : String) where
  -- Visited and waiting lines are reached, and what a visited line names is visited or waits.
  record Inv (queue closure : List String) : Type 0 where
    waiting : (y : String) → Member y queue → Reaches next x y
    visited : (y : String) → Member y closure → Reaches next x y
    closed :
        (y : String)
        → Member y closure
        → (deps : List String) × (next y ≡ ok deps)
          × ((z : String) → Member z deps → Member z closure ⊎ Member z queue)
    source : Member x closure ⊎ Member x queue

  skipped :
      (line : String) (queue closure : List String)
      → contains closure line ≡ true
      → Inv (line ∷ queue) closure
      → Inv queue closure
  skipped line queue closure old v =
      let there : Member line closure = (contains_iff closure line).0 old in
      record {
        waiting = λ y m. v.waiting y (inr m);
        visited = v.visited;
        closed = λ y m.
            let (deps, e, leads) = v.closed y m in
            (
              deps,
              e,
              λ z zm. elim (leads z zm) [
                | inl in_closure ↦ inl in_closure
                | inr waits ↦ elim waits [ inl same ↦ inl (rw same there) | inr q ↦ inr q ]
              ],
            );
        source = elim v.source [
          | inl in_closure ↦ inl in_closure
          | inr waits ↦ elim waits [ inl same ↦ inl (rw same there) | inr q ↦ inr q ]
        ];
      }

  visited_one :
      (line : String) (queue closure deps : List String)
      → next line ≡ ok deps
      → Inv (line ∷ queue) closure
      → Inv (queue ++ filter (λ d. not (contains (line ∷ closure) d)) deps) (line ∷ closure)
  visited_one line queue closure deps e v =
      let fresh = λ (d : String). not (contains (line ∷ closure) d) in
      let split = λ (y : String). Member-append y queue (filter fresh deps) in
      let reached : Reaches next x line = v.waiting line (inl refl) in
      record {
        waiting = λ y m. elim ((split y).0 m) [
          | inl q ↦ v.waiting y (inr q)
          | inr f ↦ step deps reached e (((Member-filter fresh y deps).0 f).0)
        ];
        visited = λ y m. elim m [ inl same ↦ rw same reached | inr old ↦ v.visited y old ];
        closed = λ y m. elim m [
          | inl same ↦ (
            deps,
            rw same e,
            λ z zm. elim (Bool-cases (contains (line ∷ closure) z)) [
              | inl known ↦ inl ((contains_iff (line ∷ closure) z).0 known)
              | inr new ↦ inr ((split z).1 (inr ((Member-filter fresh z deps).1 (zm, rw new refl))))
            ],
          )
          | inr old ↦
              let (ds, e', leads) = v.closed y old in
              (
                ds,
                e',
                λ z zm. moved_on z line queue closure (filter fresh deps) (split z) (leads z zm),
              )
        ];
        source = moved_on x line queue closure (filter fresh deps) (split x) v.source;
      }

  explore-Inv :
      (fuel : ℕ) (queue closure result : List String)
      → Inv queue closure
      → explore next fuel queue closure ≡ ok result
      → Inv [] result
  unfolding explore
  explore-Inv zero queue closure result v e = absurd (cc)
  explore-Inv (suc fuel) [] closure result v e = subst (Inv []) (ok-injective closure result e) v
  explore-Inv (suc fuel) (line ∷ queue) closure result v e =
      elim (Bool-cases (contains closure line)) [
        | inl old ↦
            explore-Inv fuel queue closure result (skipped line queue closure old v) (rw old at e)
        | inr new ↦
            let (deps, named, more) = >>=-eq-ok (next line) _ (rw new at e) in
            explore-Inv fuel (queue ++ filter (λ d. not (contains (line ∷ closure) d)) deps)
              (line ∷ closure) result (visited_one line queue closure deps named v) more
      ]

  Inv-start : Inv (x ∷ []) []
  Inv-start = record {
    waiting = λ y m. elim m [ inl same ↦ rw same start | inr n ↦ absurd n ];
    visited = λ y m. absurd m;
    closed = λ y m. absurd m;
    source = inr (inl refl);
  }

  complete :
      (result : List String) → Inv [] result → {y : String} → Reaches next x y → Member y result
  complete result v start = elim v.source [ inl m ↦ m | inr n ↦ absurd n ]
  complete result v (step {y} {z} deps r e m) =
      let (ds, e', leads) = v.closed y (complete result v r) in
      elim (leads z (subst (Member z) (ok-injective deps ds (sym e ∙ e')) m)) [
        | inl found ↦ found
        | inr n ↦ absurd n
      ]

-- The lines that the closure of a container holds are exactly those that the dependencies of stored
-- units lead to from the container's plan, the plan line itself included.
pub plan_closure_iff :
    (w : World) (s : Store) (ctr : KnowledgeUnit) (lines : List String)
    → plan_closure w s ctr ≡ ok lines
    → (plan : Reference) × (resolve_depends_on_plan ctr ≡ ok plan)
      × ((y : String) → (contains lines y ≡ true) ↔ Reaches (successors w s) (plan_line plan) y)
unfolding plan_closure
plan_closure_iff w s ctr lines e =
    let (plan, resolved, run) = >>=-eq-ok (resolve_depends_on_plan ctr) _ e in
    let next = successors w s in
    let x = plan_line plan in
    let v = explore-Inv next x (closure_fuel w s) (x ∷ []) [] lines (Inv-start next x) run in
    (
      plan,
      resolved,
      λ y. (
        λ found. v.visited y ((contains_iff lines y).0 found),
        λ r. (contains_iff lines y).1 (complete next x lines v r),
      ),
    )
