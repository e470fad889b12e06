-- ===== src/Conformance/Rules/Clean.antt =====
-- What it means that a rule reports nothing, for the ways in which the rules collect findings.
use eka_core.Base.{
  String, ◌≡◌, refl, ap, ◌≢◌, ◌↔◌, Bool, true, false, not, List, [], ◌∷◌, ◌++◌, map, arith, Member,
  All, flat_map,
}
use eka_core.Conformance.Artifact.{Artifact}
use eka_core.Conformance.Engine.{Severity, Detail, finding_if}

pub append-eq-nil : {A : Type 0} (xs ys : List A) → (xs ++ ys) ≡ [] ↔ ((xs ≡ []) × (ys ≡ []))
append-eq-nil [] ys = (λ e. (refl, e), λ (e, f). f)
append-eq-nil (x ∷ xs) ys = (λ e. absurd (cc), λ (e, f). absurd (cc))

pub flat_map-eq-nil :
    {A B : Type 0} (f : A → List B) (xs : List A) → flat_map f xs ≡ [] ↔ All (λ x. f x ≡ []) xs
unfolding flat_map
flat_map-eq-nil f [] = (λ e. tt, λ u. refl)
flat_map-eq-nil f (x ∷ xs) = (
  λ e.
      let (here, later) = (append-eq-nil (f x) (flat_map f xs)).0 e in
      (here, (flat_map-eq-nil f xs).0 later),
  λ (here, later). (append-eq-nil (f x) (flat_map f xs)).1 (here, (flat_map-eq-nil f xs).1 later),
)

pub finding_if-eq-nil :
    (test : Bool) (a : Artifact) (rule : String) (severity : Severity) (detail : Detail)
    → finding_if test a rule severity detail ≡ [] ↔ (test ≡ false)
unfolding finding_if
finding_if-eq-nil true a rule severity detail = (λ e. absurd (cc), λ e. absurd (cc))
finding_if-eq-nil false a rule severity detail = (λ e. refl, λ e. refl)

pub All-iff :
    {A : Type 0} {P Q : A → Type 0} → ((x : A) → P x ↔ Q x) → (xs : List A) → All P xs ↔ All Q xs
All-iff imp [] = (λ u. tt, λ u. tt)
All-iff imp (x ∷ xs) = (
  λ (p, ps). ((imp x).0 p, (All-iff imp xs).0 ps),
  λ (q, qs). ((imp x).1 q, (All-iff imp xs).1 qs),
)

pub not-eq-false : (b : Bool) → not b ≡ false ↔ (b ≡ true)
not-eq-false b = ground arith

pub All-both :
    {A : Type 0} (P Q : A → Type 0) (xs : List A) → All (λ x. P x × Q x) xs ↔ (All P xs × All Q xs)
All-both P Q [] = (λ u. (tt, tt), λ u. tt)
All-both P Q (x ∷ xs) = (
  λ ((p, q), later). let (ps, qs) = (All-both P Q xs).0 later in ((p, ps), (q, qs)),
  λ ((p, ps), (q, qs)). ((p, q), (All-both P Q xs).1 (ps, qs)),
)

pub All-append :
    {A : Type 0} (P : A → Type 0) (xs : List A) (y : A) → All P xs → P y → All P (xs ++ y ∷ [])
All-append P [] y ps p = (p, tt)
All-append P (x ∷ xs) y (q, qs) p = (q, All-append P xs y qs p)

pub All-map :
    {A : Type 0} {P Q : A → Type 0} → ((x : A) → P x → Q x) → (xs : List A) → All P xs → All Q xs
All-map imp [] u = tt
All-map imp (x ∷ xs) (p, ps) = (imp x p, All-map imp xs ps)

pub some_member : (d : String) (xs : List String) → Member d xs → xs ≢ []
some_member d xs m e = rw e at m

pub map-append :
    {A B : Type 0} (f : A → B) (xs : List A) (y : A) → map f (xs ++ y ∷ []) ≡ (map f xs ++ f y ∷ [])
map-append f [] y = refl
map-append f (x ∷ xs) y = ap (λ ys. f x ∷ ys) (map-append f xs y)
