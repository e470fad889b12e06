-- ===== src/Exchange/Projection/Reads.antt =====
-- exchange/artifact.go: what the states of a projected unit read as.
use eka_core.Base.{
  String, ◌≡◌, refl, ◌∙◌, inl, inr, Bool, false, not, Option, none, some, List, [], ◌∷◌, arith,
  ◌==◌, if◌then◌else◌, Bool-cases, eq_of_==, filter, All, lookup,
}
use eka_core.Conformance.Artifact.{ContentFields, state_of}
use eka_core.Exchange.{StateVector, KnowledgeUnit}
use eka_core.Exchange.Projection.{state_rows, states_of, to_artifact}

-- The value of a key, where a missing key reads as "".
unfoldable pub read : String → List (String × String) → String
read d [] = ""
read d (row ∷ rows) = let later = read d rows in if row.0 == d then row.1 else later

read-lookup :
    (d : String) (rows : List (String × String))
    → elim (lookup d rows) as (λ found. String) [ none ↦ "" | some v ↦ v ] ≡ read d rows
unfolding lookup read
read-lookup d [] = refl
read-lookup d (row ∷ rows) = elim (Bool-cases (row.0 == d)) [
  | inl here ↦ rw here refl
  | inr there ↦ rw there (read-lookup d rows)
]

abbrev DistinctKeys : List (String × String) → Type 0
DistinctKeys [] = Unit
DistinctKeys (row ∷ rows) = All (λ other. (other.0 == row.0) ≡ false) rows × DistinctKeys rows

read-absent :
    (d : String) (test : String × String → Bool) (rows : List (String × String))
    → All (λ row. (row.0 == d) ≡ false) rows
    → read d (filter test rows) ≡ ""
unfolding filter read
read-absent d test [] u = refl
read-absent d test (row ∷ rows) (other, others) = ground (arith, read-absent d test rows others)

abbrev has_value : String × String → Bool
has_value row = not (row.1 == "")

keys_apart :
    (d k : String) (rows : List (String × String))
    → k ≡ d
    → All (λ other. (other.0 == k) ≡ false) rows
    → All (λ other. (other.0 == d) ≡ false) rows
keys_apart d k rows same others = rw same at others

-- Rows without a value read as the map that does not hold them.
read-filter :
    (d : String) (rows : List (String × String))
    → DistinctKeys rows
    → read d (filter has_value rows) ≡ read d rows
unfolding filter read
read-filter d [] u = refl
read-filter d (row ∷ rows) (others, distinct) =
    let later = read-filter d rows distinct in
    elim (Bool-cases (row.0 == d)) [
      | inl here ↦
          let absent =
            read-absent d has_value rows (keys_apart d row.0 rows (eq_of_== row.0 d here) others) in
          ground (arith, absent, eq_of_== row.1 "")
      | inr there ↦ ground (arith, later)
    ]

rows_distinct : (v : StateVector) → DistinctKeys (state_rows v)
rows_distinct v = (
  (refl, (refl, (refl, (refl, (refl, tt))))),
  (
    (refl, (refl, (refl, (refl, tt)))),
    ((refl, (refl, (refl, tt))), ((refl, (refl, tt)), ((refl, tt), (tt, tt)))),
  ),
)

module _ (json_object : String → Option ContentFields) where
  pub state_of-to_artifact :
      (d : String) (u : KnowledgeUnit)
      → state_of d (to_artifact json_object u) ≡ read d (state_rows u.state_vector)
  unfolding state_of to_artifact states_of
  state_of-to_artifact d u =
      read-lookup d (filter has_value (state_rows u.state_vector))
      ∙ read-filter d (state_rows u.state_vector) (rows_distinct u.state_vector)
