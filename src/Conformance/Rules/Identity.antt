-- ===== src/Conformance/Rules/Identity.antt =====
-- conformance/rules.go and conformance/filename.go: R1, the unique identities, and R2, the file names.
pub mod Unique
use eka_core.Base.{
  ℕ, String, Bool, true, false, not, ◌&&◌, ◌||◌, Option, none, some, List, [], ◌∷◌, eqb, ◌==◌,
  if◌then◌else◌, find, cut, cut_last, atoi,
}
use eka_core.Conformance.State.{is_known_type, is_versioned_type}
use eka_core.Conformance.Reference.{all_digits}
use eka_core.Conformance.Artifact.{Artifact, same_identity}
use eka_core.Conformance.Engine.{
  Finding, Engine, finding, error, duplicate_identity, empty_filename, token_mismatch,
  not_versioned_name, version_mismatch, version_missing,
}

unfoldable pub same_instance : Artifact → Artifact → Bool
unfolding same_identity
same_instance a b =
    same_identity a b.namespace b.ty b.id && eqb a.instance_version b.instance_version

-- `seen` holds the artifacts that went first under their identity.
unfoldable pub rule1_from : List Artifact → List Artifact → List Finding
unfolding find same_instance finding
rule1_from seen [] = []
rule1_from seen (a ∷ rest) =
    let later = rule1_from seen rest in
    let fresh = rule1_from (a ∷ seen) rest in
    elim (find (λ b. same_instance b a) seen) [
      | none ↦ fresh
      | some first ↦ finding a "R1" error (duplicate_identity first.rel_path) ∷ later
    ]

unfoldable pub rule1 : Engine → List Finding
unfolding rule1_from
rule1 e = rule1_from [] e.artifacts

-- The name without `.md` or `.json`.
unfoldable pub strip_authoring_extension : String → String
unfolding cut_last
strip_authoring_extension base = elim (cut_last b'.' base) [
  | none ↦ base
  | some (stem, extension) ↦ if extension == "md" || extension == "json" then stem else base
]

pub record ParsedFilename : Type 0 where
  pub token : String
  pub id_part : String
  pub version : ℕ
  pub has_version : Bool

-- `strconv.Atoi` with its error dropped: past the largest int it gives the largest int.
saturated : String → ℕ
unfolding atoi
saturated digits = elim (atoi digits) [ none ↦ 9223372036854775807 | some v ↦ v ]

-- What `-v([0-9]+)$` matches: the text before it, and the digits.
version_suffix : String → Option (String × String)
unfolding cut_last all_digits
version_suffix s = elim (cut_last b'v' s) [
  | none ↦ none
  | some (front, digits) ↦ elim (cut_last b'-' front) [
    | none ↦ none
    | some (stem, between) ↦
        if between == "" && all_digits digits then some (stem, digits) else none
  ]
]

-- `none` is the error of an empty name.
unfoldable pub parse_filename : String → Option ParsedFilename
unfolding cut version_suffix saturated
parse_filename name = if name == "" then none else elim (cut b'-' name) [
  | none ↦ some (record { token = name; id_part = ""; version = 0; has_version = false })
  | some (token, tail) ↦ elim (version_suffix tail) [
    | none ↦ some (record { token = token; id_part = tail; version = 0; has_version = false })
    | some (stem, digits) ↦
        some
          (record { token = token; id_part = stem; version = saturated digits; has_version = true })
  ]
]

-- The switch on the suffix.
suffix_findings : Artifact → ParsedFilename → List Finding
unfolding is_versioned_type finding
suffix_findings a p =
    if p.has_version && not (is_versioned_type a.ty)
    then finding a "R2" error (not_versioned_name a.ty) ∷ []
    else if p.has_version && not (eqb p.version a.instance_version)
    then finding a "R2" error (version_mismatch p.version a.instance_version) ∷ []
    else if not p.has_version && is_versioned_type a.ty
    then finding a "R2" error (version_missing a.ty) ∷ []
    else []

unfoldable pub rule2 : Engine → Artifact → List Finding
unfolding is_known_type strip_authoring_extension parse_filename suffix_findings finding
rule2 e a =
    if e.skip_location || not (is_known_type a.ty)
    then []
    else elim (parse_filename (strip_authoring_extension a.file_name)) [
      | none ↦ finding a "R2" error empty_filename ∷ []
      | some p ↦
          if p.token == a.ty
          then suffix_findings a p
          else finding a "R2" error (token_mismatch p.token a.ty) ∷ []
    ]
