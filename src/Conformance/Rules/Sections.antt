-- ===== src/Conformance/Rules/Sections.antt =====
-- conformance/rules.go and conformance/keys.go: R9, the sections and the replaced decisions.
use eka_core.Base.{
  ℕ, String, Bool, false, not, ◌&&◌, ◌||◌, none, some, List, [], ◌∷◌, ◌++◌, map, eqb, ◌==◌, any,
  flat_map, is_some, ok, err, ◌⊕◌, trim_space, is_digit, drop_prefix, fields_func, join, to_lower,
  capitalized, is_ascii_letter,
}
use eka_core.Conformance.State.{domain_content_state}
use eka_core.Conformance.Reference.{parse_reference}
use eka_core.Conformance.Vocabulary.{required_sections_for}
use eka_core.Conformance.Artifact.{Artifact, state_of, relation, content_value, same_file}
use eka_core.Conformance.Engine.{
  Finding, Engine, finding_if, resolve_ref, error, section_missing, no_replacement,
}

separates_words : ℕ → Bool
unfolding is_ascii_letter is_digit
separates_words c = not (is_ascii_letter c) && not (is_digit c)

key_of_words : List String → String
unfolding to_lower capitalized join
key_of_words [] = ""
key_of_words (word ∷ words) = to_lower word ⊕ join "" (map capitalized words)

-- The key of a section name; the names of the table are ASCII.
unfoldable pub section_key : String → String
unfolding separates_words key_of_words fields_func
section_key name = key_of_words (fields_func separates_words name)

unfoldable pub heading_matches : String → String → Bool
unfolding trim_space drop_prefix
heading_matches line name = elim (drop_prefix "## " (trim_space line)) [
  | none ↦ false
  | some tail ↦
      let text = trim_space tail in text == name || is_some (drop_prefix (name ⊕ " ") text)
]

-- The content object holds a section by its key, and the body by its heading.
unfoldable pub has_section : Artifact → String → Bool
unfolding content_value section_key heading_matches any
has_section a section = elim a.content_fields [
  | some object ↦ is_some (content_value (section_key section) object)
  | none ↦ any (λ line. heading_matches line section) a.body_lines
]

-- The name that a finding shows.
shown_section : Artifact → String → String
unfolding section_key
shown_section a section = elim a.content_fields [
  | some object ↦ section_key section
  | none ↦ section
]

unfoldable pub section_findings : Artifact → String → List Finding
unfolding has_section shown_section finding_if
section_findings a section =
    finding_if (not (has_section a section)) a "R9" error
      (section_missing (shown_section a section) a.ty)

-- A `supersedes` entry of `b` that resolves and names `a`.
unfoldable pub replaces : Engine → Artifact → Artifact → String → Bool
unfolding parse_reference resolve_ref
replaces e a b raw = elim (parse_reference raw b.namespace b.ty) [
  | err bad ↦ false
  | ok r ↦
      resolve_ref e r
      && ((r.namespace == a.namespace && (r.ty == a.ty && r.id == a.id))
          && (not r.has_version || eqb r.version a.instance_version))
]

unfoldable pub has_replacement : Engine → Artifact → Bool
unfolding any same_file relation replaces
has_replacement e a =
    any (λ b. not (same_file b a) && any (replaces e a b) (relation "supersedes" b)) e.artifacts

unfoldable pub replacement_findings : Engine → Artifact → List Finding
unfolding state_of has_replacement finding_if
replacement_findings e a =
    finding_if
      ((a.ty == "adr" && state_of domain_content_state a == "superseded")
        && not (has_replacement e a))
      a "R9" error (no_replacement a.id)

unfoldable pub rule9 : Engine → Artifact → List Finding
unfolding required_sections_for flat_map section_findings replacement_findings
rule9 e a =
    elim (required_sections_for a.ty) [
      | none ↦ []
      | some sections ↦ flat_map (section_findings a) sections
    ]
    ++ replacement_findings e a
