-- ===== src/Conformance/Rules/Identity/Unique.antt =====
-- R1 against its meaning: no two artifacts of the set are the same instance.
use eka_core.Base.{
  ◌≡◌, refl, ◌↔◌, inl, inr, Bool, false, none, List, [], ◌∷◌, Bool-cases, Option-cases, All, find,
}
use eka_core.Conformance.Artifact.{Artifact}
use eka_core.Conformance.Engine.{Engine}
use eka_core.Conformance.Rules.Clean.{All-both}
use eka_core.Conformance.Rules.Identity.{same_instance, rule1_from, rule1}

-- No artifact of the list is the same instance as a later one.
abbrev pub AllDistinct : List Artifact → Type 0
AllDistinct [] = Unit
AllDistinct (a ∷ rest) = All (λ b. same_instance a b ≡ false) rest × AllDistinct rest

pub find-eq-none :
    {A : Type 0} (test : A → Bool) (xs : List A)
    → find test xs ≡ none ↔ All (λ x. test x ≡ false) xs
unfolding find
find-eq-none test [] = (λ e. tt, λ u. refl)
find-eq-none test (x ∷ xs) = elim (Bool-cases (test x)) [
  | inl t ↦ rw t (λ e. absurd (cc), λ (f, later). absurd (cc))
  | inr f ↦
      rw f (λ e. (refl, (find-eq-none test xs).0 e), λ (g, later). (find-eq-none test xs).1 later)
]

abbrev NewTo : List Artifact → Artifact → Type 0
NewTo seen b = All (λ a. same_instance a b ≡ false) seen

-- The rest of the list is new to `seen` and distinct.
rule1_from_iff :
    (seen rest : List Artifact)
    → rule1_from seen rest ≡ [] ↔ (All (NewTo seen) rest × AllDistinct rest)
unfolding rule1_from
rule1_from_iff seen [] = (λ e. (tt, tt), λ u. refl)
rule1_from_iff seen (a ∷ rest) =
    let new = find-eq-none (λ b. same_instance b a) seen in
    let later = rule1_from_iff (a ∷ seen) rest in
    let both = All-both (λ b. same_instance a b ≡ false) (NewTo seen) rest in
    elim (Option-cases (find (λ b. same_instance b a) seen)) [
      | inl absent ↦
          rw (absent, rule1_from)
            (
              λ e.
                  let (fresh, distinct) = later.0 e in
                  let (apart, old) = both.0 fresh in ((new.0 absent, old), (apart, distinct)),
              λ ((first, old), (apart, distinct)). later.1 (both.1 (apart, old), distinct),
            )
      | inr (b, found) ↦
          rw (found, rule1_from)
            (λ e. absurd (cc), λ ((first, old), (apart, distinct)). absurd (cc (new.1 first)))
    ]

All-new : (xs : List Artifact) → All (NewTo []) xs
All-new [] = tt
All-new (x ∷ xs) = (tt, All-new xs)

-- R1 reports nothing exactly if no two artifacts of the set have the same namespace, type, id and
-- instance version.
pub rule1_iff : (e : Engine) → rule1 e ≡ [] ↔ AllDistinct e.artifacts
unfolding rule1
rule1_iff e = (
  λ clean. ((rule1_from_iff [] e.artifacts).0 clean).1,
  λ distinct. (rule1_from_iff [] e.artifacts).1 (All-new e.artifacts, distinct),
)
