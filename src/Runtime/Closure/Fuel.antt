-- ===== src/Runtime/Closure/Fuel.antt =====
-- runtime/transition.go, `planClosure`: the fuel of the worklist.
use mathlib.Core.Path.{subst}
use eka_core.Base.{
  ℕ, zero, suc, ◌+◌, ◌*◌, ◌≤◌, ◌<◌, String, ◌≡◌, refl, sym, ap, ◌∙◌, ◌≢◌, inl, inr, Bool, not, ◌&&◌,
  Option, none, some, List, [], ◌∷◌, ◌++◌, arith, ◌==◌, Bool-cases, Option-cases, length, filter,
  length-append, Member, contains, Result, ◌>>=◌, >>=-eq-ok, Result-cases, eq_of_ok-eq-ok, ok, err,
  Member-append, Member-filter, length-filter, unseen, unseen-lt, unseen_start,
}
use eka_core.Exchange.{KnowledgeUnit, Codec}
use eka_core.Store.Rows.{PayloadRow, RefRow, Store, StoreError}
use eka_core.Store.Query.{units, units_by_line}
use eka_core.Runtime.World.{World, Failure, from_store, from_store-ok, out_of_fuel}
use eka_core.Store.Reads.{mem-units_by_query}
use eka_core.Runtime.Latest.{mem-latest}
use eka_core.Runtime.Units.{latest}
use eka_core.Runtime.Plan.{resolve_depends_on_plan, plan_line, plan_answers}
use eka_core.Runtime.Closure.{stored_targets, row_targets}
use eka_core.Runtime.Closure.{
  identity_namespace, identity_type, identity_id, dependencies, successors, explore, closure_fuel,
  plan_closure,
}

module _ (next : String → Result Failure (List String)) (lines : List String) where
  -- A visit queues lines of a fixed list, at most as many as that list is long.
  record IsBounded : Type 0 where
    within :
        (line : String) (deps : List String)
        → next line ≡ ok deps
        → ((z : String) → Member z deps → Member z lines) × (length deps ≤ length lines)
    answers : (line : String) → next line ≢ err out_of_fuel

  weight : ℕ → ℕ
  weight n = n * suc (length lines)

  weight_drop : (m n : ℕ) → m < n → weight m + suc (length lines) ≤ weight n
  unfolding weight
  weight_drop m n h = grind arith

  explore_ends :
      IsBounded
      → (fuel : ℕ) (queue closure : List String) → ((z : String) → Member z queue → Member z lines)
      → weight (unseen closure lines) + length queue < fuel
      → explore next fuel queue closure ≢ err out_of_fuel
  unfolding explore
  explore_ends b zero queue closure q h e = absurd (omega arith)
  explore_ends b (suc fuel) [] closure q h e = cc
  explore_ends b (suc fuel) (line ∷ queue) closure q h e =
      elim (Bool-cases (contains closure line)) [
        | inl old ↦
            explore_ends b fuel queue closure (λ z m. q z (inr m)) (omega arith) (rw old at e)
        | inr new ↦ elim (Result-cases (next line)) [
          | inr (f, failed) ↦ b.answers line (failed ∙ rw (failed, new) at e)
          | inl (deps, named) ↦
              let fresh = λ (d : String). not (contains (line ∷ closure) d) in
              let (inside, few) = b.within line deps named in
              explore_ends b fuel (queue ++ filter fresh deps) (line ∷ closure)
                (λ z m. elim ((Member-append z queue (filter fresh deps)).0 m) [
                  | inl old ↦ q z (inr old)
                  | inr added ↦ inside z ((Member-filter fresh z deps).0 added).0
                ])
                (omega (
                  arith,
                  length-append queue (filter fresh deps),
                  length-filter fresh deps,
                  weight_drop (unseen (line ∷ closure) lines) (unseen closure lines)
                      (unseen-lt line closure lines new (q line (inl refl))),
                ))
                (rw (named, new) at e)
        ]
      ]

enough :
    (targets : List String) (source : String)
    → weight (λ (line : String). ok targets) (source ∷ targets) (unseen [] (source ∷ targets)) + 1
      < suc (suc (suc (length targets) * suc (suc (length targets))))
unfolding weight
enough targets source = rw (unseen_start (source ∷ targets)) (omega arith)

-- What one stored row names is part of what all rows name.
module _ (codec : Codec) (ps : List PayloadRow) where
  mem-stored_targets :
      (r : RefRow) (rs : List RefRow) (z : String)
      → Member r rs
      → Member z (row_targets codec ps r)
      → Member z (stored_targets codec ps rs)
  unfolding stored_targets
  mem-stored_targets r [] z m t = absurd m
  mem-stored_targets r (x ∷ rs) z m t =
      (Member-append z (row_targets codec ps x) (stored_targets codec ps rs)).1 (elim m [
        | inl e ↦ inl (subst (λ (y : RefRow). Member z (row_targets codec ps y)) e t)
        | inr later ↦ inr (mem-stored_targets r rs z later t)
      ])

  length-stored_targets :
      (r : RefRow) (rs : List RefRow)
      → Member r rs
      → length (row_targets codec ps r) ≤ length (stored_targets codec ps rs)
  unfolding stored_targets
  length-stored_targets r [] m = absurd m
  length-stored_targets r (x ∷ rs) m =
      let both = length-append (row_targets codec ps x) (stored_targets codec ps rs) in
      elim m [
        | inl e ↦ omega (arith, both, ap (λ (y : RefRow). length (row_targets codec ps y)) e)
        | inr later ↦ omega (arith, both, length-stored_targets r rs later)
      ]

abbrev on_line : String → RefRow → Bool
on_line line r =
    r.ref.namespace == identity_namespace line
    && (r.ref.ty == identity_type line && r.ref.id == identity_id line)

from_store_answers : {A : Type 0} (m : Result StoreError A) → from_store m ≢ err out_of_fuel
from_store_answers (ok a) e = cc
from_store_answers (err f) e = cc

bind_answers :
    {A B : Type 0} (m : Result Failure A) (next : A → Result Failure B)
    → m ≢ err out_of_fuel
    → ((a : A) → next a ≢ err out_of_fuel)
    → (m >>= next) ≢ err out_of_fuel
bind_answers (ok a) next first rest e = rest a e
bind_answers (err f) next first rest e = first (cc)

current_answers :
    (current : Option KnowledgeUnit)
    → (elim current as (λ x. Result Failure (List String)) [
      | none ↦ ok []
      | some u ↦ ok (dependencies u)
    ])
      ≢ err out_of_fuel
current_answers none e = cc
current_answers (some u) e = cc

module _ (w : World) (s : Store) (source : String) where
  abbrev universe : List String
  universe = source ∷ stored_targets w.codec s.payloads s.refs

  abbrev Within : List String → Type 0
  Within deps = ((z : String) → Member z deps → Member z universe) × (length deps ≤ length universe)

  current_bounded :
      (line : String) (units : List KnowledgeUnit) (u : KnowledgeUnit)
      → units_by_line w.codec s (identity_namespace line) (identity_type line) (identity_id line)
        ≡ ok units
      → latest units ≡ some u
      → Within (dependencies u)
  unfolding units_by_line row_targets dependencies
  current_bounded line units u found current =
      let (r, there, test, d) =
        mem-units_by_query w.codec s (on_line line) units u found (mem-latest units u current) in
      let named : row_targets w.codec s.payloads r ≡ dependencies u = rw (d, row_targets) in
      (
        λ z m. inr (
            mem-stored_targets w.codec s.payloads r s.refs z there
              (subst (Member z) (sym named) m)),
        omega (
          arith,
          ap (λ (l : List String). length l) named,
          length-stored_targets w.codec s.payloads r s.refs there,
        ),
      )

  successors_bounded : IsBounded (successors w s) universe
  unfolding successors
  successors_bounded = record {
    within = λ line deps e.
        let query =
          units_by_line w.codec s (identity_namespace line) (identity_type line)
            (identity_id line) in
        let (us, found, rest) = >>=-eq-ok (from_store query) _ e in
        elim (Option-cases (latest us)) [
          | inl none_stored ↦
              subst Within (eq_of_ok-eq-ok [] deps (rw none_stored at rest))
                (λ z m. absurd m, omega arith)
          | inr (u, current) ↦
              subst Within (eq_of_ok-eq-ok (dependencies u) deps (rw current at rest))
                (current_bounded line us u (from_store-ok query us found) current)
        ];
    answers = λ line.
        bind_answers
          (from_store (
            units_by_line w.codec s (identity_namespace line) (identity_type line)
              (identity_id line)))
          (λ us. elim (latest us) [ none ↦ ok [] | some u ↦ ok (dependencies u) ])
          (from_store_answers (
            units_by_line w.codec s (identity_namespace line) (identity_type line)
              (identity_id line)))
          (λ us. current_answers (latest us));
  }

-- The walk always answers within its fuel: the closure of a container is found, or the container has
-- no single plan, or a stored unit cannot be read.
pub plan_closure_ends :
    (w : World) (s : Store) (ctr : KnowledgeUnit) → plan_closure w s ctr ≢ err out_of_fuel
unfolding plan_closure closure_fuel weight
plan_closure_ends w s ctr =
    bind_answers (resolve_depends_on_plan ctr)
      (λ plan. explore (successors w s) (closure_fuel w s) (plan_line plan ∷ []) [])
      (plan_answers ctr)
      (λ plan.
        explore_ends (successors w s) (universe w s (plan_line plan))
          (successors_bounded w s (plan_line plan)) (closure_fuel w s) (plan_line plan ∷ []) []
          (λ z m. elim m [ inl same ↦ inl same | inr n ↦ absurd n ])
          (enough (stored_targets w.codec s.payloads s.refs) (plan_line plan)))
