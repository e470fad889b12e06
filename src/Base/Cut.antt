-- ===== src/Base/Cut.antt =====
-- Laws of trimming and cutting on concatenated texts.
use Prim.Native.Char.{Char, code}
use Prim.Native.Nat.{ℕ}
use Prim.Native.String.{String}
use mathlib.Core.Path.{◌≡◌, refl, ap, ◌∙◌}
use mathlib.Core.Bool.{Bool, true, not, ◌&&◌}
use mathlib.Core.Option.{none, some}
use native.Mathlib.Omega.{arith}
use text.Mathlib.TextLemmas.{cons-append, nil-append}
use eka_core.Base.Tests.{eqb}
use eka_core.Base.Text.{
  ◌⊕◌, is_space, trim_left, trim_right, cons_trimmed, trim_space, every, cut, cut_last,
}

pub every-append :
    (test : ℕ → Bool) (s t : String) → every test (s ⊕ t) ≡ (every test s && every test t)
unfolding every
every-append test String.[] t = ap (every test) (nil-append t)
every-append test (String.◌∷◌ c s) t = rw cons-append (ground (arith, every-append test s t))

pub every_of_imp :
    (p q : ℕ → Bool)
    → ((c : ℕ) → p c ≡ true → q c ≡ true)
    → (s : String) → every p s ≡ true
    → every q s ≡ true
unfolding every
every_of_imp p q imp String.[] h = refl
every_of_imp p q imp (String.◌∷◌ c s) h = ground (arith, imp (code c), every_of_imp p q imp s)

abbrev pub is_not : ℕ → ℕ → Bool
is_not k c = not (eqb c k)

pub cut-append :
    (k : ℕ) (c : Char) (s t : String)
    → every (is_not k) s ≡ true
    → code c ≡ k
    → cut k (s ⊕ String.◌∷◌ c t) ≡ some (s, t)
unfolding every cut
cut-append k c String.[] t h e = rw nil-append (ground arith)
cut-append k c (String.◌∷◌ d s) t h e = rw cons-append (ground (arith, cut-append k c s t))

pub cut-eq-none : (k : ℕ) (s : String) → every (is_not k) s ≡ true → cut k s ≡ none
unfolding every cut
cut-eq-none k String.[] h = refl
cut-eq-none k (String.◌∷◌ c s) h = ground (arith, cut-eq-none k s)

pub cut_last-eq-none : (k : ℕ) (s : String) → every (is_not k) s ≡ true → cut_last k s ≡ none
unfolding every cut_last
cut_last-eq-none k String.[] h = refl
cut_last-eq-none k (String.◌∷◌ c s) h = ground (arith, cut_last-eq-none k s)

abbrev is_black : ℕ → Bool
is_black c = not (is_space c)

trim_left-clean : (s : String) → every is_black s ≡ true → trim_left s ≡ s
unfolding every trim_left
trim_left-clean String.[] h = refl
trim_left-clean (String.◌∷◌ c s) h = ground arith

trim_right-clean : (s : String) → every is_black s ≡ true → trim_right s ≡ s
unfolding every trim_right
trim_right-clean String.[] h = refl
trim_right-clean (String.◌∷◌ c String.[]) h = ground arith
trim_right-clean (String.◌∷◌ c (String.◌∷◌ d s)) h =
    ap (cons_trimmed c) (trim_right-clean (String.◌∷◌ d s) (ground arith))

pub trim_space-clean : (s : String) → every (λ c. not (is_space c)) s ≡ true → trim_space s ≡ s
unfolding trim_space
trim_space-clean s h = ap trim_right (trim_left-clean s h) ∙ trim_right-clean s h
