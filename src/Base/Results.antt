-- ===== src/Base/Results.antt =====
-- A Go pair `(value, error)`: the value, or the error.
use mathlib.Core.Path.{◌≡◌, refl}
use mathlib.Core.Logic.{◌⊎◌, inl, inr}
use mathlib.Core.Bool.{Bool, true, false}
use eka_core.Base.Tests.{if◌then◌else◌, Bool-cases}

pub data Result (E A : Type 0) : Type 0 where
  ok : A → Result E A
  err : E → Result E A

-- `if err != nil { return err }` between two steps.
infixl 5 ◌>>=◌
abbrev pub ◌>>=◌ : {E A B : Type 0} → Result E A → (A → Result E B) → Result E B
ok value >>= next = next value
err failure >>= next = err failure

-- A chain that succeeds has succeeded at its first step, and in what follows.
pub >>=-eq-ok :
    {E A B : Type 0} (first : Result E A) (next : A → Result E B) {result : B}
    → (first >>= next) ≡ ok result
    → (value : A) × (first ≡ ok value) × (next value ≡ ok result)
>>=-eq-ok (ok value) next done = (value, refl, done)
>>=-eq-ok (err failure) next done = absurd (cc)

pub Result-cases :
    {E A : Type 0} (m : Result E A) → ((a : A) × (m ≡ ok a)) ⊎ ((e : E) × (m ≡ err e))
Result-cases (ok a) = inl (a, refl)
Result-cases (err e) = inr (e, refl)

abbrev pub ok_value : {E A : Type 0} → A → Result E A
ok_value a = ok a

pub eq_of_ok-eq-ok : {E A : Type 0} (a b : A) → ok_value {E = E} {A = A} a ≡ ok b → a ≡ b
eq_of_ok-eq-ok a b e = cc

-- A guard that a success has passed.
module _ {E A : Type 0} (b : Bool) {a : A} where
  pub if-eq-ok :
      (x y : Result E A)
      → (if b then x else y) ≡ ok a
      → ((b ≡ true) × (x ≡ ok a)) ⊎ ((b ≡ false) × (y ≡ ok a))
  if-eq-ok x y h = elim (Bool-cases b) [ inl t ↦ inl (t, rw t at h) | inr f ↦ inr (f, rw f at h) ]

  pub if_err-eq-ok :
      (e : E) (y : Result E A) → (if b then err e else y) ≡ ok a → (b ≡ false) × (y ≡ ok a)
  if_err-eq-ok e y h = elim (if-eq-ok (err e) y h) [ inl (t, bad) ↦ absurd (cc) | inr rest ↦ rest ]

  pub if_else_err-eq-ok :
      (x : Result E A) (e : E) → (if b then x else err e) ≡ ok a → (b ≡ true) × (x ≡ ok a)
  if_else_err-eq-ok x e h = elim (if-eq-ok x (err e) h) [
    | inl rest ↦ rest
    | inr (f, bad) ↦ absurd (cc)
  ]
