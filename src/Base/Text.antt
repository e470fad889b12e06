-- ===== src/Base/Text.antt =====
-- What the program uses of Go's `strings`: concatenation, trimming, and cutting at a byte.
use Prim.Native.Char.{Char, code}
use Prim.Native.Nat.{ℕ, zero, suc, ◌+◌, ◌*◌, ◌-◌, ◌/◌, ◌%◌}
use Prim.Native.String
use Prim.Native.String.{String}
use mathlib.Core.Bool.{Bool, true, ◌&&◌, ◌||◌}
use mathlib.Core.Option.{Option, none, some}
use eka_core.Base.Tests.{eqb, leb, ltb, if◌then◌else◌}

-- `s + t`.
infixr 65 ◌⊕◌
abbrev pub ◌⊕◌ : String → String → String
s ⊕ t = String.◌++◌ s t

-- `unicode.IsSpace`.
unfoldable pub is_space : ℕ → Bool
is_space c =
    (leb 9 c && leb c 13)
    || (eqb c 32
        || (eqb c 0x85
            || (eqb c 0xa0
                || (eqb c 0x1680
                    || ((leb 0x2000 c && leb c 0x200a)
                        || (eqb c 0x2028
                            || (eqb c 0x2029
                                || (eqb c 0x202f || (eqb c 0x205f || eqb c 0x3000)))))))))

unfoldable pub trim_left : String → String
trim_left String.[] = String.[]
trim_left (String.◌∷◌ c s) =
    let rest = trim_left s in if is_space (code c) then rest else String.◌∷◌ c s

-- A character goes if it is white and nothing after it stays.
unfoldable pub cons_trimmed : Char → String → String
cons_trimmed c String.[] = if is_space (code c) then String.[] else String.◌∷◌ c String.[]
cons_trimmed c (String.◌∷◌ d s) = String.◌∷◌ c (String.◌∷◌ d s)

unfoldable pub trim_right : String → String
unfolding cons_trimmed
trim_right String.[] = String.[]
trim_right (String.◌∷◌ c s) = cons_trimmed c (trim_right s)

unfoldable pub trim_space : String → String
unfolding trim_left trim_right is_space
trim_space s = trim_right (trim_left s)

-- Every character passes the test.
unfoldable pub every : (ℕ → Bool) → String → Bool
every test String.[] = true
every test (String.◌∷◌ c s) = test (code c) && every test s

with_head : Char → Option (String × String) → Option (String × String)
with_head c none = none
with_head c (some (a, b)) = some (String.◌∷◌ c a, b)

-- The texts around the first `k`: `strings.Index`, `s[:i]` and `s[i+1:]`.
unfoldable pub cut : ℕ → String → Option (String × String)
unfolding with_head
cut k String.[] = none
cut k (String.◌∷◌ c s) =
    let rest = cut k s in if eqb (code c) k then some (String.[], s) else with_head c rest

-- The texts around the last `k`: `strings.LastIndex`.
unfoldable pub cut_last : ℕ → String → Option (String × String)
unfolding with_head
cut_last k String.[] = none
cut_last k (String.◌∷◌ c s) =
    let rest = with_head c (cut_last k s) in
    elim (cut_last k s) [
      | none ↦ if eqb (code c) k then some (String.[], s) else none
      | some p ↦ rest
    ]

unfoldable pub is_digit : ℕ → Bool
is_digit c = leb b'0' c && leb c b'9'

unfoldable pub digits_value : ℕ → String → ℕ
digits_value acc String.[] = acc
digits_value acc (String.◌∷◌ c s) = digits_value (acc * 10 + (code c - b'0')) s

-- `strconv.Atoi` on a text of digits: an error past the largest int.
unfoldable pub atoi : String → Option ℕ
unfolding digits_value
atoi s = let v = digits_value 0 s in if leb v 9223372036854775807 then some v else none

digit_text : ℕ → String
digit_text d =
    if eqb d 0
    then "0"
    else if eqb d 1
    then "1"
    else if eqb d 2
    then "2"
    else if eqb d 3
    then "3"
    else if eqb d 4
    then "4"
    else if eqb d 5
    then "5"
    else if eqb d 6
    then "6"
    else if eqb d 7
    then "7"
    else if eqb d 8
    then "8"
    else "9"

-- More rounds than `n` has digits.
itoa_from : ℕ → ℕ → String → String
unfolding digit_text
itoa_from zero n acc = acc
itoa_from (suc rounds) n acc =
    let more = itoa_from rounds (n / 10) (digit_text (n % 10) ⊕ acc) in
    if ltb n 10 then digit_text n ⊕ acc else more

-- `strconv.Itoa` of a number that is not negative.
unfoldable pub itoa : ℕ → String
unfolding itoa_from
itoa n = itoa_from (suc n) n ""

-- `strings.CutPrefix`: what follows the prefix.
unfoldable pub drop_prefix : String → String → Option String
drop_prefix String.[] s = some s
drop_prefix (String.◌∷◌ p prefix) String.[] = none
drop_prefix (String.◌∷◌ p prefix) (String.◌∷◌ c s) =
    let tail = drop_prefix prefix s in if eqb (code p) (code c) then tail else none
