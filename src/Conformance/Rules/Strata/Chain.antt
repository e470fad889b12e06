-- ===== src/Conformance/Rules/Strata/Chain.antt =====
-- What the silence of R10 (conformance/rules_domain.go) says: a chain to a higher stratum.
use eka_core.Base.{
  ℕ, zero, suc, String, ◌≡◌, refl, sym, ap, ◌∙◌, ◌⊎◌, inl, inr, true, false, ◌||◌, none, some, List,
  [], ◌∷◌, ◌++◌, eqb, ◌==◌, Bool-cases, Option-cases, length, Member, is_some, contains,
}
use eka_core.Conformance.State.{domain_content_state, is_known_type}
use eka_core.Conformance.Domain.{Domain, domain_for_token, stratum}
use eka_core.Conformance.Artifact.{Artifact, state_of}
use eka_core.Conformance.Engine.{Engine}
use eka_core.Conformance.Rules.Strata.{
  chain_targets, is_above, visit, reaches_above, has_higher_chain, exempt_tokens, rule10,
}
use eka_core.Conformance.Rules.Strata.Fuel.{eq_of_some-eq-some, has_higher_chain-ends}

-- A chain of references from an artifact to one in a stratum above `home`, through artifacts of
-- types that have a domain.
pub data Chain (artifacts : List Artifact) (home : Domain) : Artifact → Type 0 where
  above :
      {a : Artifact} (t : Artifact) (d : Domain)
      → Member t (chain_targets artifacts a)
      → domain_for_token t.ty ≡ some d
      → is_above d home ≡ true
      → Chain artifacts home a
  through :
      {a : Artifact} (t : Artifact)
      → Member t (chain_targets artifacts a)
      → Chain artifacts home t
      → Chain artifacts home a

-- A target in a higher stratum.
abbrev HasAbove : Domain → List Artifact → Type 0
HasAbove home targets =
    (t : Artifact) × (d : Domain) × Member t targets
    × (domain_for_token t.ty ≡ some d)
    × (is_above d home ≡ true)

visit-eq-none :
    (home : Domain) (visited : List String) (queue targets : List Artifact)
    → visit home visited queue targets ≡ none
    → HasAbove home targets
unfolding visit
visit-eq-none home visited queue [] e = absurd (cc)
visit-eq-none home visited queue (t ∷ targets) e =
    let further : HasAbove home targets → HasAbove home (t ∷ targets) =
      λ (x, d, m, k, h). (x, d, inr m, k, h) in
    elim (Bool-cases (contains visited t.rel_path)) [
      | inl seen ↦ further (visit-eq-none home visited queue targets (rw (seen, visit) at e))
      | inr new ↦ elim (Option-cases (domain_for_token t.ty)) [
        | inl unknown ↦
            further (visit-eq-none home visited queue targets (rw (new, unknown, visit) at e))
        | inr (d, known) ↦ elim (Bool-cases (is_above d home)) [
          | inl higher ↦ (t, d, inl refl, known, higher)
          | inr level ↦ further (
              visit-eq-none home (t.rel_path ∷ visited) (queue ++ t ∷ []) targets
                (rw (new, known, level, visit) at e))
        ]
      ]
    ]

Member-snoc :
    (x t : Artifact) (xs : List Artifact) → Member x (xs ++ t ∷ []) → Member x xs ⊎ (x ≡ t)
Member-snoc x t [] m = elim m [ inl e ↦ inr e | inr bad ↦ absurd bad ]
Member-snoc x t (y ∷ xs) m = elim m [
  | inl e ↦ inl (inl e)
  | inr later ↦ elim (Member-snoc x t xs later) [ inl there ↦ inl (inr there) | inr e ↦ inr e ]
]

widen :
    (x t : Artifact) (queue targets : List Artifact)
    → Member x queue ⊎ Member x targets
    → Member x queue ⊎ Member x (t ∷ targets)
widen x t queue targets m = elim m [ inl old ↦ inl old | inr later ↦ inr (inr later) ]

-- What the queue gains are targets.
visit-Member :
    (home : Domain) (visited : List String) (queue targets : List Artifact) (visited' : List String)
    (queue' : List Artifact) (x : Artifact)
    → visit home visited queue targets ≡ some (visited', queue')
    → Member x queue'
    → Member x queue ⊎ Member x targets
unfolding visit
visit-Member home visited queue [] visited' queue' x e m =
    let same = eq_of_some-eq-some (visited, queue) (visited', queue') e in
    let q = ap (λ (p : List String × List Artifact). p.1) same in inl (rw (sym q) at m)
visit-Member home visited queue (t ∷ targets) visited' queue' x e m =
    let skip = λ (h : visit home visited queue targets ≡ some (visited', queue')).
      widen x t queue targets (visit-Member home visited queue targets visited' queue' x h m) in
    elim (Bool-cases (contains visited t.rel_path)) [
      | inl seen ↦ skip (rw (seen, visit) at e)
      | inr new ↦ elim (Option-cases (domain_for_token t.ty)) [
        | inl unknown ↦ skip (rw (new, unknown, visit) at e)
        | inr (d, known) ↦ elim (Bool-cases (is_above d home)) [
          | inl higher ↦ absurd (cc (rw (new, known, higher, visit) at e))
          | inr level ↦
              elim (visit-Member home (t.rel_path ∷ visited) (queue ++ t ∷ []) targets visited'
                queue' x (rw (new, known, level, visit) at e) m) [
                  | inl early ↦ elim (Member-snoc x t queue early) [
                    | inl old ↦ inl old
                    | inr e' ↦ inr (inl e')
                  ]
                  | inr later ↦ inr (inr later)
                ]
        ]
      ]
    ]

-- A walk that answers true has met a chain from an artifact of its queue.
reaches_above-Chain :
    (fuel : ℕ) (home : Domain) (artifacts : List Artifact) (visited : List String)
    (queue : List Artifact)
    → reaches_above fuel home artifacts visited queue ≡ some true
    → (a : Artifact) × Member a queue × Chain artifacts home a
unfolding reaches_above
reaches_above-Chain zero home artifacts visited queue e = absurd (cc)
reaches_above-Chain (suc fuel) home artifacts visited [] e = absurd (cc)
reaches_above-Chain (suc fuel) home artifacts visited (a ∷ queue) e =
    elim (Option-cases (visit home visited queue (chain_targets artifacts a))) [
      | inl higher ↦
          let (t, d, m, known, h) =
            visit-eq-none home visited queue (chain_targets artifacts a) higher in
          (a, inl refl, above t d m known h)
      | inr ((visited', queue'), walked) ↦
          let (b, m, chain) =
            reaches_above-Chain fuel home artifacts visited' queue'
              (rw (walked, reaches_above) at e) in
          elim (visit-Member home visited queue (chain_targets artifacts a) visited' queue' b walked
            m) [
              | inl old ↦ (b, inr old, chain)
              | inr target ↦ (a, inl refl, through b target chain)
            ]
    ]

start-Chain :
    (artifacts : List Artifact) (home : Domain) (a : Artifact)
    → has_higher_chain artifacts home a ≡ some true
    → Chain artifacts home a
unfolding has_higher_chain
start-Chain artifacts home a e =
    let (b, m, chain) =
      reaches_above-Chain (suc (suc (length artifacts))) home artifacts (a.rel_path ∷ []) (a ∷ [])
        e in
    elim m [ inl same ↦ rw same at chain | inr bad ↦ absurd bad ]

-- R10 reports nothing on an artifact of a known type below the first stratum, of no exempt type and
-- not a draft, only if a chain of its derives-from and depends-on references leads to an artifact of
-- a higher stratum.
pub rule10-Chain :
    (e : Engine) (a : Artifact) (home : Domain)
    → is_known_type a.ty ≡ true
    → domain_for_token a.ty ≡ some home
    → (eqb (stratum home) 1
        || (contains exempt_tokens a.ty || state_of domain_content_state a == "draft"))
      ≡ false
    → rule10 e a ≡ []
    → Chain e.artifacts home a
unfolding rule10
rule10-Chain e a home known domain bound clean =
    elim (Option-cases (has_higher_chain e.artifacts home a)) [
      | inl lost ↦ absurd (cc (has_higher_chain-ends e.artifacts home a, ap is_some lost))
      | inr (reached, walked) ↦ elim (Bool-cases reached) [
        | inl yes_reached ↦ start-Chain e.artifacts home a (walked ∙ ap some yes_reached)
        | inr not_reached ↦
            absurd (cc (rw (known, domain, bound, walked, not_reached, rule10) at clean))
      ]
    ]
