-- ===== src/Base/Split.antt =====
-- Splitting and lower case, as `strings.Split`, `strings.Fields` and `strings.ToLower` do them.
use Prim.Native.Char.{Char, code}
use Prim.Native.Nat.{ℕ, zero, suc, ◌-◌}
use Prim.Native.String.{String}
use mathlib.Core.Bool.{Bool, ◌&&◌, ◌||◌}
use mathlib.Core.List.{List, [], ◌∷◌}
use eka_core.Base.Tests.{eqb, leb, if◌then◌else◌}
use eka_core.Base.Text.{◌⊕◌}

grow : Char → List String → List String
grow c [] = String.◌∷◌ c String.[] ∷ []
grow c (word ∷ words) = String.◌∷◌ c word ∷ words

-- The pieces between the separators: one more than there are separators.
unfoldable pub split : ℕ → String → List String
unfolding grow
split k String.[] = String.[] ∷ []
split k (String.◌∷◌ c s) =
    let pieces = split k s in if eqb (code c) k then String.[] ∷ pieces else grow c pieces

-- The pieces that are not empty.
drop_empty : List String → List String
drop_empty [] = []
drop_empty (String.[] ∷ words) = drop_empty words
drop_empty (String.◌∷◌ c s ∷ words) = String.◌∷◌ c s ∷ drop_empty words

-- `strings.FieldsFunc`.
fields_by : (ℕ → Bool) → String → List String
unfolding grow
fields_by separates String.[] = String.[] ∷ []
fields_by separates (String.◌∷◌ c s) =
    let pieces = fields_by separates s in
    if separates (code c) then String.[] ∷ pieces else grow c pieces

unfoldable pub fields_func : (ℕ → Bool) → String → List String
unfolding drop_empty fields_by
fields_func separates s = drop_empty (fields_by separates s)

unfoldable pub join : String → List String → String
join sep [] = ""
join sep (word ∷ []) = word
join sep (word ∷ next ∷ words) = word ⊕ (sep ⊕ join sep (next ∷ words))

-- The character at a place, with a default past the end.
char_or : Char → ℕ → String → Char
char_or c i String.[] = c
char_or c zero (String.◌∷◌ d s) = d
char_or c (suc i) (String.◌∷◌ d s) = char_or c i s

-- Lower case of the ASCII letters and of the two other characters whose lower case is ASCII. Other
-- letters stay, so a result is exact where it is compared with an ASCII text.
lower_char : Char → Char
unfolding char_or
lower_char c =
    if leb b'A' (code c) && leb (code c) b'Z'
    then char_or c (code c - b'A') "abcdefghijklmnopqrstuvwxyz"
    else if eqb (code c) 0x130
    then char_or c 0 "i"
    else if eqb (code c) 0x212a
    then char_or c 0 "k"
    else c

unfoldable pub to_lower : String → String
unfolding lower_char
to_lower String.[] = String.[]
to_lower (String.◌∷◌ c s) = String.◌∷◌ (lower_char c) (to_lower s)

-- The first letter of an ASCII word in upper case, and the others in lower case.
unfoldable pub capitalized : String → String
unfolding char_or to_lower
capitalized String.[] = String.[]
capitalized (String.◌∷◌ c s) =
    String.◌∷◌
      (if leb b'a' (code c) && leb (code c) b'z'
        then char_or c (code c - b'a') "ABCDEFGHIJKLMNOPQRSTUVWXYZ"
        else c)
      (to_lower s)

unfoldable pub is_ascii_letter : ℕ → Bool
is_ascii_letter c = (leb b'a' c && leb c b'z') || (leb b'A' c && leb c b'Z')

-- `strings.TrimLeft` and `strings.TrimRight` of one character.
unfoldable pub trim_left_of : ℕ → String → String
trim_left_of k String.[] = String.[]
trim_left_of k (String.◌∷◌ c s) =
    let tail = trim_left_of k s in if eqb (code c) k then tail else String.◌∷◌ c s

cons_kept : ℕ → Char → String → String
cons_kept k c String.[] = if eqb (code c) k then String.[] else String.◌∷◌ c String.[]
cons_kept k c (String.◌∷◌ d s) = String.◌∷◌ c (String.◌∷◌ d s)

unfoldable pub trim_right_of : ℕ → String → String
unfolding cons_kept
trim_right_of k String.[] = String.[]
trim_right_of k (String.◌∷◌ c s) = cons_kept k c (trim_right_of k s)
