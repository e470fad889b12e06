-- ===== src/Conformance/Artifact.antt =====
-- conformance/artifact.go, `Artifact`: what the authoring adapter reads from one file.
use eka_core.Base.{ℕ, String, Bool, ◌&&◌, Option, none, some, List, [], ◌==◌, if◌then◌else◌, lookup}

-- One change-log entry of an authoring file; the authority is its name.
pub record LogEntry : Type 0 where
  pub date : String
  pub domain : String
  pub from : String
  pub to : String
  pub by : String

-- A content value: a text, a nested object, a list, or a value of another kind.
mutual
  pub data ContentValue : Type 0 where
    text_value : String → ContentValue
    object_value : ContentFields → ContentValue
    list_value : ContentItems → ContentValue
    other_value : ContentValue

  pub data ContentFields : Type 0 where
    no_fields : ContentFields
    field : String → ContentValue → ContentFields → ContentFields

  pub data ContentItems : Type 0 where
    no_items : ContentItems
    value_item : ContentValue → ContentItems → ContentItems

-- `file_name` is the base of the path and `folders` the names of the directories above it, nearest
-- first. A Go map is an association list.
pub record Artifact : Type 0 where
  pub rel_path : String
  pub file_name : String
  pub folders : List String
  pub namespace : String
  pub ty : String
  pub id : String
  pub instance_version : ℕ
  pub revision : ℕ
  pub created : String
  pub updated : String
  pub states : List (String × String)
  pub phase : String
  pub has_phase : Bool
  pub has_phase_key : Bool
  pub dimension : String
  pub has_dimension : Bool
  pub dimensions_secondary : List String
  pub domain : String
  pub relations : List (String × List String)
  pub change_log : List LogEntry
  pub body_lines : List String
  pub content_fields : Option ContentFields

-- A missing key of a Go map of texts reads as "".
unfoldable pub state_of : String → Artifact → String
unfolding lookup
state_of domain a = elim (lookup domain a.states) [ none ↦ "" | some v ↦ v ]

unfoldable pub relation : String → Artifact → List String
unfolding lookup
relation name a = elim (lookup name a.relations) [ none ↦ [] | some refs ↦ refs ]

unfoldable pub content_value : String → ContentFields → Option ContentValue
content_value key no_fields = none
content_value key (field k v rest) =
    let later = content_value key rest in if k == key then some v else later

-- One artifact of a scan is one file, so the pointers of the source differ as the paths do.
unfoldable pub same_file : Artifact → Artifact → Bool
same_file a b = a.rel_path == b.rel_path

-- Members of the same identity line: the key of the index.
unfoldable pub same_identity : Artifact → String → String → String → Bool
same_identity a ns ty id = a.namespace == ns && (a.ty == ty && a.id == id)
