-- ===== src/Store/Numbered.antt =====
-- store/numbers.go: the lines that carry an issue number, and the lines that a number names.
pub mod Resolve
use eka_core.Base.{
  ℕ, String, Bool, ◌&&◌, Option, none, some, List, [], ◌∷◌, map, ltb, eqb, ◌==◌, if◌then◌else◌,
  filter, insert, ◌⊕◌, text_below, sort,
}
use eka_core.Store.Rows.{RefRow, Store}

pub record NumberedLine : Type 0 where
  pub project_id : String
  pub namespace : String
  pub ty : String
  pub id : String
  pub number : ℕ

unfoldable pub line_form : NumberedLine → String
line_form l = l.namespace ⊕ ("/" ⊕ (l.ty ⊕ (":" ⊕ l.id)))

-- SELECT project_id, namespace, type, id, number
unfoldable pub numbered_line : RefRow → NumberedLine
numbered_line r = record {
  project_id = r.ref.project_id;
  namespace = r.ref.namespace;
  ty = r.ref.ty;
  id = r.ref.id;
  number = r.number;
}

-- The next column where the texts are equal.
unfoldable pub then_by : String → String → Bool → Bool
then_by s t next = if s == t then next else text_below s t

-- ORDER BY number_group, namespace, type, id
unfoldable pub number_order : RefRow → RefRow → Bool
unfolding then_by
number_order a b = then_by a.number_group b.number_group (
    then_by a.ref.namespace b.ref.namespace
      (then_by a.ref.ty b.ref.ty (text_below a.ref.id b.ref.id)))

unfoldable pub line_by_number : Store → String → ℕ → List NumberedLine
unfolding filter sort number_order numbered_line
line_by_number s project number = map numbered_line (
    sort number_order
      (filter (λ (r : RefRow). r.ref.project_id == project && eqb r.number number) s.refs))

unfoldable pub has_number : String → String → ℕ → RefRow → Bool
has_number project group number r =
    r.ref.project_id == project && (r.number_group == group && eqb r.number number)

-- The first row of the answer; `none` stands for `false`.
unfoldable pub line_by_number_group : Store → String → String → ℕ → Option NumberedLine
unfolding filter has_number numbered_line
line_by_number_group s project group number =
    elim (filter (has_number project group number) s.refs) [
      | [] ↦ none
      | r ∷ rs ↦ some (numbered_line r)
    ]

-- `out[…] = number` for one row after the other.
unfoldable pub numbers_of : List RefRow → List (String × ℕ) → List (String × ℕ)
unfolding insert line_form numbered_line
numbers_of [] out = out
numbers_of (r ∷ rs) out = numbers_of rs (insert (line_form (numbered_line r)) r.number out)

unfoldable pub numbers_by_project : Store → String → List (String × ℕ)
unfolding filter numbers_of
numbers_by_project s project =
    numbers_of (filter (λ (r : RefRow). r.ref.project_id == project && ltb 0 r.number) s.refs) []
