-- ===== src/Conformance/Rules/WorkItems.antt =====
-- conformance/rules.go: R8, the projections of tickets and containers.
use eka_core.Base.{
  ℕ, suc, String, Bool, false, not, ◌&&◌, ◌||◌, Option, none, some, List, [], ◌∷◌, ◌++◌, map, eqb,
  ◌==◌, if◌then◌else◌, get_elem?, any, filter, flat_map, is_some, contains, ok, err, is_space,
  trim_space, every, cut, cut_last, drop_prefix, split, fields_func, join, to_lower, trim_left_of,
  trim_right_of,
}
use eka_core.Conformance.State.{
  domain_execution_state, work_item_types, execution_state_values, is_work_item_type,
}
use eka_core.Conformance.Reference.{Reference, parse_reference}
use eka_core.Conformance.Artifact.{
  ContentValue, ContentFields, Artifact, state_of, relation, content_value, text_value,
  object_value, list_value, other_value, no_fields, field,
}
use eka_core.Conformance.Engine.{
  Detail, Finding, Engine, finding, finding_if, bucket, resolve_in, resolve_ref, error, warning,
  header_missing, no_container, bad_separator, no_state_column, short_row, row_unresolved,
  row_invalid, row_differs,
}
use eka_core.Conformance.Rules.Sections.{section_key, heading_matches}

abbrev line_break : ℕ
line_break = 10

-- conformance/artifact.go
abbrev pub project_header : String
project_header = "> Generated — State Projection. Do NOT edit state here; refresh on read."

pub is_header_line : String → Bool
unfolding trim_right_of
is_header_line line = trim_right_of 13 line == project_header

-- A text or a nested object; the lists of the source are not searched.
unfoldable mutual
  pub content_value_has_header : ContentValue → Bool
  content_value_has_header (text_value s) = any is_header_line (split line_break s)
  content_value_has_header (object_value object) = fields_have_header object
  content_value_has_header (list_value items) = false
  content_value_has_header other_value = false

  pub fields_have_header : ContentFields → Bool
  fields_have_header no_fields = false
  fields_have_header (field key value object) =
      content_value_has_header value || fields_have_header object

unfoldable pub has_projection_header : Artifact → Bool
unfolding fields_have_header any is_header_line
has_projection_header a = elim a.content_fields [
  | some object ↦ fields_have_header object
  | none ↦ any is_header_line a.body_lines
]

-- One `|` at each end, where there is one.
abbrev or_text : String → Option String → String
or_text default none = default
or_text default (some s) = s

strip_pipes : String → String
unfolding drop_prefix cut_last
strip_pipes s =
    let front = or_text s (drop_prefix "|" s) in
    elim (cut_last b'|' front) [
      | none ↦ front
      | some (stem, end_text) ↦ if end_text == "" then stem else front
    ]

unfoldable pub split_table_row : String → List String
unfolding strip_pipes trim_space split
split_table_row line = map trim_space (split b'|' (strip_pipes (trim_space line)))

separator_from : Bool → List String → Bool
unfolding trim_left_of trim_right_of every
separator_from found [] = found
separator_from found (cell ∷ cells) =
    let bare = trim_right_of b':' (trim_left_of b':' cell) in
    let later = separator_from (found || not (bare == "")) cells in
    every (λ c. eqb c b'-') bare && later

unfoldable pub is_table_separator : String → Bool
unfolding separator_from split_table_row
is_table_separator line = separator_from false (split_table_row line)

unfoldable pub normalize_header : String → String
unfolding join fields_func is_space to_lower
normalize_header s = join " " (fields_func is_space (to_lower s))

-- The column of the last name that means the execution state.
state_column : ℕ → Option ℕ → List String → Option ℕ
unfolding contains normalize_header
state_column i found [] = found
state_column i found (name ∷ names) =
    let is_state =
      contains ("execution-state" ∷ "execution state" ∷ "execution_state" ∷ "status" ∷ [])
        (normalize_header name) in
    state_column (suc i) (if is_state then some i else found) names

-- The table of a container, or what is wrong with it.
pub data WorkItemsTable : Type 0 where
  no_table : WorkItemsTable
  parse_warn : Detail → WorkItemsTable
  table : ℕ → List (List String) → WorkItemsTable

parse_pipe_lines : List String → WorkItemsTable
unfolding split_table_row is_table_separator state_column
parse_pipe_lines [] = no_table
parse_pipe_lines (header ∷ []) = no_table
parse_pipe_lines (header ∷ separator ∷ lines) =
    if not (is_table_separator separator)
    then parse_warn bad_separator
    else elim (state_column 0 none (split_table_row header)) [
      | none ↦ parse_warn no_state_column
      | some column ↦ table column (map split_table_row lines)
    ]

unfoldable pub parse_work_items_lines : List String → WorkItemsTable
unfolding parse_pipe_lines filter trim_space drop_prefix
parse_work_items_lines lines =
    parse_pipe_lines (filter (λ line. is_some (drop_prefix "|" line)) (map trim_space lines))

-- The lines of the section, up to the next heading.
section_lines : List String → List String
unfolding drop_prefix trim_space
section_lines [] = []
section_lines (line ∷ lines) =
    let later = section_lines lines in
    if is_some (drop_prefix "## " (trim_space line)) then [] else line ∷ later

after_heading : List String → Option (List String)
unfolding heading_matches section_lines
after_heading [] = none
after_heading (line ∷ lines) =
    let later = after_heading lines in
    if heading_matches line "Work Items" then some (section_lines lines) else later

unfoldable pub work_items_table : Artifact → WorkItemsTable
unfolding content_value section_key parse_work_items_lines split after_heading
work_items_table a = elim a.content_fields [
  | some object ↦ elim (content_value (section_key "Work Items") object) [
    | none ↦ no_table
    | some value ↦ elim value [
      | text_value s ↦ parse_work_items_lines (split line_break s)
      | _ ↦ no_table
    ]
  ]
  | none ↦ elim (after_heading a.body_lines) [
    | none ↦ no_table
    | some lines ↦ parse_work_items_lines lines
  ]
]

-- The reference of a row that has a colon, or of a bare id in one type.
abbrev row_line : String → String → String → Reference
row_line ns ty id = record { namespace = ns; ty = ty; id = id; version = 0; has_version = false }

-- The execution state of an owner; "" is one that the callback cannot show.
typed_owner : Engine → String → String → Option String
unfolding parse_reference is_work_item_type resolve_ref resolve_in state_of
typed_owner e cell ns = elim (parse_reference cell ns "") [
  | err bad ↦ none
  | ok r ↦ if not (is_work_item_type r.ty) then none else elim e.cko_resolve [
    | some resolves ↦ if resolve_ref e r then some "" else none
    | none ↦ elim (resolve_in e.artifacts r) [
      | none ↦ none
      | some target ↦ some (state_of domain_execution_state target)
    ]
  ]
]

-- The answer where exactly one is found.
only_one : {A : Type 0} → List A → Option A
only_one [] = none
only_one (a ∷ []) = some a
only_one (a ∷ b ∷ rest) = none

bare_owner : Engine → String → String → Option String
unfolding only_one filter flat_map bucket resolve_ref state_of
bare_owner e cell ns = elim e.cko_resolve [
  | some resolves ↦
      elim (only_one (filter (λ ty. resolve_ref e (row_line ns ty cell)) work_item_types)) [
        | none ↦ none
        | some ty ↦ some ""
      ]
  | none ↦ elim (only_one (flat_map (λ ty. bucket e.artifacts ns ty cell) work_item_types)) [
    | none ↦ none
    | some target ↦ some (state_of domain_execution_state target)
  ]
]

unfoldable pub resolve_work_item_cell : Engine → String → String → Option String
unfolding cut typed_owner bare_owner
resolve_work_item_cell e cell ns =
    if is_some (cut b':' cell) then typed_owner e cell ns else bare_owner e cell ns

cell_findings : Engine → Artifact → String → String → List Finding
unfolding resolve_work_item_cell contains finding finding_if
cell_findings e a id_cell state_cell =
    if id_cell == "" || state_cell == ""
    then []
    else elim (resolve_work_item_cell e id_cell a.namespace) [
      | none ↦ finding a "R8" warning (row_unresolved id_cell) ∷ []
      | some owner ↦
          if not (contains execution_state_values state_cell)
          then finding a "R8" warning (row_invalid id_cell state_cell) ∷ []
          else finding_if (not (owner == "") && not (owner == state_cell)) a "R8" warning
              (row_differs state_cell id_cell)
    ]

-- A row is never empty: it has a piece more than it has separators.
unfoldable pub row_findings : Engine → Artifact → ℕ → List String → List Finding
unfolding cell_findings trim_space finding
row_findings e a column row = elim (get_elem? row column) [
  | none ↦ finding a "R8" warning (short_row row) ∷ []
  | some state_cell ↦ elim (get_elem? row 0) [
    | none ↦ []
    | some id_cell ↦ cell_findings e a (trim_space id_cell) (trim_space state_cell)
  ]
]

unfoldable pub compare_work_items_table : Engine → Artifact → WorkItemsTable → List Finding
unfolding flat_map row_findings finding
compare_work_items_table e a no_table = []
compare_work_items_table e a (parse_warn detail) = finding a "R8" warning detail ∷ []
compare_work_items_table e a (table column rows) = flat_map (row_findings e a column) rows

-- A reference of a ticket to a container.
unfoldable pub names_container : Engine → Artifact → String → Bool
unfolding parse_reference resolve_ref
names_container e a raw = elim (parse_reference raw a.namespace a.ty) [
  | err bad ↦ false
  | ok r ↦ r.ty == "ctr" && resolve_ref e r
]

header_findings : Artifact → List Finding
unfolding has_projection_header finding_if
header_findings a = finding_if (not (has_projection_header a)) a "R8" error header_missing

container_findings : Engine → Artifact → WorkItemsTable → List Finding
unfolding header_findings compare_work_items_table
container_findings e a no_table = []
container_findings e a (parse_warn detail) =
    header_findings a ++ compare_work_items_table e a (parse_warn detail)
container_findings e a (table column rows) =
    header_findings a ++ compare_work_items_table e a (table column rows)

unfoldable pub rule8 : Engine → Artifact → List Finding
unfolding header_findings any names_container relation container_findings work_items_table
    finding_if
rule8 e a =
    if a.ty == "tkt"
    then header_findings a
      ++ finding_if (not (any (names_container e a) (relation "derives-from" a))) a "R8" error
          no_container
    else if a.ty == "ctr"
    then container_findings e a (work_items_table a)
    else []
