-- ===== src/Conformance/Rules/Strata/Fuel.antt =====
-- The walk of R10 (conformance/rules_domain.go) ends within its fuel.
use eka_core.Base.{
  ℕ, zero, suc, ◌+◌, ◌≤◌, ◌<◌, String, ◌≡◌, refl, sym, ap, inl, inr, Bool, true, Option, some, List,
  [], ◌∷◌, ◌++◌, map, arith, Bool-cases, Option-cases, length, length-append, Member, All, find,
  is_some, contains, Result-cases, mem-sort, Member-filter, unseen, unseen-le, unseen-lt,
  unseen_start,
}
use eka_core.Conformance.Domain.{Domain, domain_for_token}
use eka_core.Conformance.Reference.{Reference, parse_reference}
use eka_core.Conformance.Artifact.{Artifact, relation}
use eka_core.Conformance.Engine.{bucket, first_artifact, resolve_in}
use eka_core.Conformance.Rules.Strata.{
  targets_of, chain_targets, is_above, visit, reaches_above, has_higher_chain,
}

abbrev paths : List Artifact → List String
paths artifacts = map (λ (a : Artifact). a.rel_path) artifacts

abbrev pub some_of : {A : Type 0} → A → Option A
some_of a = some a

pub eq_of_some-eq-some : {A : Type 0} (a b : A) → some_of a ≡ some b → a ≡ b
eq_of_some-eq-some a b e = cc

find-Member :
    {A : Type 0} (test : A → Bool) (xs : List A) (a : A) → find test xs ≡ some a → Member a xs
unfolding find
find-Member test [] a e = absurd (cc)
find-Member test (x ∷ xs) a e = elim (Bool-cases (test x)) [
  | inl t ↦ inl (eq_of_some-eq-some a x (sym (rw (t, find) at e)))
  | inr f ↦ inr (find-Member test xs a (rw (f, find) at e))
]

first-Member : (xs : List Artifact) (a : Artifact) → first_artifact xs ≡ some a → Member a xs
first-Member [] a e = absurd (cc)
first-Member (x ∷ xs) a e = inl (eq_of_some-eq-some a x (sym e))

bucket-Member :
    (artifacts : List Artifact) (ns ty id : String) (a : Artifact)
    → Member a (bucket artifacts ns ty id)
    → Member a artifacts
unfolding bucket
bucket-Member artifacts ns ty id a m = ((Member-filter _ a artifacts).0 ((mem-sort _ a _).0 m)).0

resolve_in-Member :
    (artifacts : List Artifact) (r : Reference) (a : Artifact)
    → resolve_in artifacts r ≡ some a
    → Member a artifacts
unfolding resolve_in
resolve_in-Member artifacts r a e = elim (Bool-cases r.has_version) [
  | inl versioned ↦
      bucket-Member artifacts r.namespace r.ty r.id a
        (find-Member _ (bucket artifacts r.namespace r.ty r.id) a (rw (versioned, resolve_in) at e))
  | inr line ↦
      bucket-Member artifacts r.namespace r.ty r.id a
        (first-Member (bucket artifacts r.namespace r.ty r.id) a (rw (line, resolve_in) at e))
]

Member-map :
    (artifacts : List Artifact) (a : Artifact)
    → Member a artifacts
    → Member a.rel_path (paths artifacts)
Member-map [] a m = absurd m
Member-map (x ∷ artifacts) a m = elim m [
  | inl here ↦ inl (ap (λ (y : Artifact). y.rel_path) here)
  | inr there ↦ inr (Member-map artifacts a there)
]

-- The targets are artifacts of the set.
abbrev AreScanned : List Artifact → List Artifact → Type 0
AreScanned artifacts targets = All (λ (t : Artifact). Member t.rel_path (paths artifacts)) targets

targets_of-AreScanned :
    (artifacts : List Artifact) (a : Artifact) (raws : List String)
    → AreScanned artifacts (targets_of artifacts a raws)
unfolding targets_of
targets_of-AreScanned artifacts a [] = tt
targets_of-AreScanned artifacts a (raw ∷ raws) =
    let later = targets_of-AreScanned artifacts a raws in
    elim (Result-cases (parse_reference raw a.namespace a.ty)) [
      | inr (bad, e) ↦ rw (e, targets_of) later
      | inl (r, e) ↦ elim (Option-cases (resolve_in artifacts r)) [
        | inl absent ↦ rw (e, absent, targets_of) later
        | inr (t, found) ↦
            rw (e, found, targets_of)
              (Member-map artifacts t (resolve_in-Member artifacts r t found), later)
      ]
    ]

All-++ : {A : Type 0} (P : A → Type 0) (xs ys : List A) → All P xs → All P ys → All P (xs ++ ys)
All-++ P [] ys ps qs = qs
All-++ P (x ∷ xs) ys (p, ps) qs = (p, All-++ P xs ys ps qs)

-- What is still to be walked.
abbrev work_left : List Artifact → List String → List Artifact → ℕ
work_left artifacts visited queue = unseen visited (paths artifacts) + length queue

visit-le :
    (artifacts : List Artifact) (home : Domain) (visited : List String)
    (queue targets : List Artifact) (visited' : List String) (queue' : List Artifact)
    → AreScanned artifacts targets
    → visit home visited queue targets ≡ some (visited', queue')
    → work_left artifacts visited' queue' ≤ work_left artifacts visited queue
unfolding visit
visit-le artifacts home visited queue [] visited' queue' u e =
    let same = eq_of_some-eq-some (visited, queue) (visited', queue') e in
    let v = ap (λ (p : List String × List Artifact). p.0) same in
    let q = ap (λ (p : List String × List Artifact). p.1) same in rw (sym v, sym q) (omega arith)
visit-le artifacts home visited queue (t ∷ targets) visited' queue' (scanned, rest) e =
    let skip = visit-le artifacts home visited queue targets visited' queue' rest in
    let enter =
      visit-le artifacts home (t.rel_path ∷ visited) (queue ++ t ∷ []) targets visited' queue'
        rest in
    elim (Bool-cases (contains visited t.rel_path)) [
      | inl seen ↦ skip (rw (seen, visit) at e)
      | inr new ↦ elim (Option-cases (domain_for_token t.ty)) [
        | inl unknown ↦ skip (rw (new, unknown, visit) at e)
        | inr (d, known) ↦ elim (Bool-cases (is_above d home)) [
          | inl above ↦ absurd (cc (rw (new, known, above, visit) at e))
          | inr level ↦
              let less = unseen-lt t.rel_path visited (paths artifacts) new scanned in
              let grown = length-append queue (t ∷ []) in
              let bound = enter (rw (new, known, level, visit) at e) in
              omega (arith, less, grown, bound)
        ]
      ]
    ]

chain-AreScanned :
    (artifacts : List Artifact) (a : Artifact) → AreScanned artifacts (chain_targets artifacts a)
unfolding chain_targets
chain-AreScanned artifacts a =
    All-++ (λ (t : Artifact). Member t.rel_path (paths artifacts))
      (targets_of artifacts a (relation "derives-from" a))
      (targets_of artifacts a (relation "depends-on" a))
      (targets_of-AreScanned artifacts a (relation "derives-from" a))
      (targets_of-AreScanned artifacts a (relation "depends-on" a))

length-paths : (artifacts : List Artifact) → length (paths artifacts) ≡ length artifacts
length-paths [] = refl
length-paths (a ∷ artifacts) = ap (λ n. suc n) (length-paths artifacts)

-- Fuel beyond the work that is left gives an answer.
reaches_above-ends :
    (fuel : ℕ) (home : Domain) (artifacts : List Artifact) (visited : List String)
    (queue : List Artifact)
    → work_left artifacts visited queue < fuel
    → is_some (reaches_above fuel home artifacts visited queue) ≡ true
unfolding reaches_above
reaches_above-ends zero home artifacts visited queue h = absurd (omega (arith, h))
reaches_above-ends (suc fuel) home artifacts visited [] h = refl
reaches_above-ends (suc fuel) home artifacts visited (a ∷ queue) h =
    elim (Option-cases (visit home visited queue (chain_targets artifacts a))) [
      | inl above ↦ rw (above, reaches_above) refl
      | inr ((visited', queue'), walked) ↦
          let scanned = chain-AreScanned artifacts a in
          let bound =
            visit-le artifacts home visited queue (chain_targets artifacts a) visited' queue'
              scanned walked in
          rw (walked, reaches_above)
            (reaches_above-ends fuel home artifacts visited' queue' (omega (arith, bound, h)))
    ]

-- The walk of R10 over the references of an artifact of the set always gives an answer.
pub has_higher_chain-ends :
    (artifacts : List Artifact) (home : Domain) (a : Artifact)
    → is_some (has_higher_chain artifacts home a) ≡ true
unfolding has_higher_chain
has_higher_chain-ends artifacts home a =
    reaches_above-ends (suc (suc (length artifacts))) home artifacts (a.rel_path ∷ []) (a ∷ []) (
      omega (
        arith,
        unseen-le a.rel_path [] (paths artifacts),
        unseen_start (paths artifacts),
        length-paths artifacts,
      ))
