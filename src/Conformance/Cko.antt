-- ===== src/Conformance/Cko.antt =====
-- conformance/cko.go: the rules on one unit, without the rules of file names and folders.
use Prim.Native.Char.{code}
use eka_core.Base.{
  ℕ, zero, suc, ◌+◌, ◌-◌, ◌*◌, ◌%◌, String, Bool, true, false, not, ◌&&◌, ◌||◌, Option, none, some,
  List, [], ◌∷◌, ◌++◌, ltb, leb, eqb, ◌==◌, if◌then◌else◌, flat_map, contains, is_digit,
  drop_prefix,
}
use eka_core.Conformance.State.{relationship_fields, is_known_type}
use eka_core.Conformance.Reference.{Reference}
use eka_core.Conformance.Artifact.{Artifact}
use eka_core.Conformance.Engine.{
  Detail, Finding, Engine, finding_if, error, unknown_type_token, below_one, not_a_date,
  unknown_relationship, empty_id, namespace_missing,
}
use eka_core.Conformance.Rules.Identity.{rule1}
use eka_core.Conformance.Rules.Notes.{validate_graph}
use eka_core.Conformance.Report.{artifact_rules}

-- A number of a fixed count of digits at the front of a text, and what follows.
digits_front : ℕ → ℕ → String → Option (ℕ × String)
unfolding is_digit
digits_front zero acc s = some (acc, s)
digits_front (suc count) acc String.[] = none
digits_front (suc count) acc (String.◌∷◌ c s) =
    let later = digits_front count (acc * 10 + (code c - b'0')) s in
    if is_digit (code c) then later else none

is_leap_year : ℕ → Bool
is_leap_year y = eqb (y % 4) 0 && (not (eqb (y % 100) 0) || eqb (y % 400) 0)

days_in : ℕ → ℕ → ℕ
unfolding is_leap_year
days_in y m =
    if eqb m 2
    then if is_leap_year y then 29 else 28
    else if eqb m 4 || (eqb m 6 || (eqb m 9 || eqb m 11))
    then 30
    else 31

is_calendar_day : ℕ → ℕ → ℕ → Bool
unfolding days_in
is_calendar_day y m d = (leb 1 m && leb m 12) && (leb 1 d && leb d (days_in y m))

day_part : ℕ → ℕ → String → Bool
unfolding digits_front is_calendar_day
day_part y m s = elim (digits_front 2 0 s) [
  | none ↦ false
  | some (d, end_text) ↦ end_text == "" && is_calendar_day y m d
]

month_part : ℕ → String → Bool
unfolding digits_front drop_prefix day_part
month_part y s = elim (digits_front 2 0 s) [
  | none ↦ false
  | some (m, tail) ↦ elim (drop_prefix "-" tail) [ none ↦ false | some s' ↦ day_part y m s' ]
]

-- `time.Parse("2006-01-02", s)` succeeds.
unfoldable pub valid_date : String → Bool
unfolding digits_front drop_prefix month_part
valid_date s = elim (digits_front 4 0 s) [
  | none ↦ false
  | some (y, tail) ↦ elim (drop_prefix "-" tail) [ none ↦ false | some s' ↦ month_part y s' ]
]

unfoldable pub date_is_wrong : String → Bool
unfolding valid_date
date_is_wrong s = not (s == "") && not (valid_date s)

unfoldable pub cko_structural : Artifact → List Finding
unfolding is_known_type date_is_wrong flat_map contains finding_if
cko_structural a =
    finding_if (not (is_known_type a.ty)) a "R0" error (unknown_type_token a.ty)
    ++ (finding_if (a.id == "") a "R0" error empty_id
        ++ (finding_if (a.namespace == "") a "R0" error namespace_missing
            ++ (finding_if (ltb a.instance_version 1) a "R0" error (below_one "instance-version")
                ++ (finding_if (ltb a.revision 1) a "R0" error (below_one "revision")
                    ++ (finding_if (date_is_wrong a.created) a "R0" error (not_a_date "created")
                        ++ (finding_if (date_is_wrong a.updated) a "R0" error (not_a_date "updated")
                            ++ flat_map
                                (λ (row : String × List String).
                                  finding_if (not (contains relationship_fields row.0)) a "R5" error
                                    (unknown_relationship row.0))
                                a.relations))))))

-- `ValidateCKOOptions`
pub record ValidateCkoOptions : Type 0 where
  pub resolve : Option (Reference → Bool)
  pub draft : Option (Reference → Bool)

-- The engine for one artifact.
unfoldable pub cko_engine : Artifact → ValidateCkoOptions → Engine
cko_engine a o = record {
  artifacts = a ∷ [];
  skip_location = true;
  cko_resolve = o.resolve;
  draft_ref = o.draft;
}

-- The findings on the projection of one unit.
unfoldable pub validate_cko : (Detail → String) → Artifact → ValidateCkoOptions → List Finding
unfolding cko_structural rule1 flat_map artifact_rules validate_graph cko_engine
validate_cko render a o =
    cko_structural a
    ++ (rule1 (cko_engine a o)
        ++ (flat_map (artifact_rules (cko_engine a o)) (a ∷ [])
            ++ validate_graph render (a ∷ []) (record { resolve = o.resolve; skip_gates = true })))
