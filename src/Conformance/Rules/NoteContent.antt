-- ===== src/Conformance/Rules/NoteContent.antt =====
-- conformance/artifact.go: the content contract of the notes.
use eka_core.Base.{
  String, Bool, true, not, ◌&&◌, Option, none, some, List, [], ◌∷◌, ◌++◌, ◌==◌, if◌then◌else◌,
  is_some, contains, trim_space,
}
use eka_core.Conformance.Artifact.{
  ContentValue, ContentFields, ContentItems, Artifact, content_value, text_value, object_value,
  list_value, other_value, no_fields, field, no_items, value_item,
}
use eka_core.Conformance.Engine.{
  Detail, Finding, finding_if, error, not_structured, role_missing, unknown_role, key_not_allowed,
  text_required, list_required, list_malformed, bad_verdict,
}

unfoldable pub note_finding : Artifact → Bool → Detail → List Finding
unfolding finding_if
note_finding a test detail = finding_if test a "R13" error detail

-- The keys that a role allows; `none` is an unknown role.
unfoldable pub note_role_content_keys : String → Option (List String)
note_role_content_keys role =
    if role == "implementation"
    then some ("role" ∷ "summary" ∷ "changes" ∷ "tests" ∷ [])
    else if role == "review"
    then some ("role" ∷ "verdict" ∷ "notes" ∷ [])
    else if role == "fix"
    then some ("role" ∷ "addresses" ∷ "detail" ∷ [])
    else if role == "reply"
    then some ("role" ∷ "body" ∷ [])
    else none

-- The text at a key; "" where there is none.
unfoldable pub text_at : String → ContentFields → String
unfolding content_value
text_at key object = elim (content_value key object) [
  | none ↦ ""
  | some value ↦ elim value [ text_value s ↦ s | _ ↦ "" ]
]

-- The texts of a list; `none` is an item of another kind.
text_items : ContentItems → Option (List String)
text_items no_items = some []
text_items (value_item value items) =
    let later = text_items items in
    elim value [
      | text_value s ↦ elim later [ none ↦ none | some texts ↦ some (s ∷ texts) ]
      | _ ↦ none
    ]

unfoldable pub as_string_list_any : ContentValue → Option (List String)
unfolding text_items
as_string_list_any (list_value items) = text_items items
as_string_list_any (text_value s) = none
as_string_list_any (object_value object) = none
as_string_list_any other_value = none

-- A required text that is not blank.
unfoldable pub text_findings : Artifact → ContentFields → String → List Finding
unfolding text_at trim_space note_finding
text_findings a object key =
    note_finding a (trim_space (text_at key object) == "") (text_required key)

unfoldable pub list_findings : Artifact → ContentFields → String → List Finding
unfolding content_value as_string_list_any note_finding
list_findings a object key = elim (content_value key object) [
  | none ↦ note_finding a true (list_required key)
  | some value ↦ note_finding a (not (is_some (as_string_list_any value))) (list_malformed key)
]

unfoldable pub verdict_findings : Artifact → ContentFields → List Finding
unfolding text_at note_finding
verdict_findings a object =
    let verdict = text_at "verdict" object in
    note_finding a (not (verdict == "approve") && not (verdict == "changes-requested")) bad_verdict

key_findings : Artifact → String → List String → ContentFields → List Finding
unfolding contains note_finding
key_findings a role allowed no_fields = []
key_findings a role allowed (field key value object) =
    note_finding a (not (contains allowed key)) (key_not_allowed key role)
    ++ key_findings a role allowed object

-- The required keys of a role.
unfoldable pub role_findings : Artifact → ContentFields → String → List Finding
unfolding text_findings list_findings verdict_findings
role_findings a object role =
    if role == "implementation"
    then text_findings a object "summary"
      ++ (list_findings a object "changes" ++ list_findings a object "tests")
    else if role == "review"
    then verdict_findings a object ++ list_findings a object "notes"
    else if role == "fix"
    then text_findings a object "detail" ++ list_findings a object "addresses"
    else if role == "reply"
    then text_findings a object "body"
    else []

unfoldable pub validate_note_content : Artifact → List Finding
unfolding text_at note_role_content_keys key_findings role_findings note_finding
validate_note_content a = elim a.content_fields [
  | none ↦ note_finding a true not_structured
  | some object ↦
      let role = text_at "role" object in
      if role == "" then note_finding a true role_missing else elim (note_role_content_keys role) [
        | none ↦ note_finding a true (unknown_role role)
        | some allowed ↦ key_findings a role allowed object ++ role_findings a object role
      ]
]
