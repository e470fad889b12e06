-- ===== src/Store/Integrity.antt =====
-- store/integrity.go: `VerifyIntegrity`, over the tables that it reads.
pub mod Clean
use eka_core.Base.{
  ℕ, String, Bool, not, Option, none, some, List, [], ◌∷◌, ◌++◌, eqb, ◌==◌, if◌then◌else◌, length,
  any, filter, flat_map, contains, ◌⊕◌, text_below, sort,
}
use eka_core.Exchange.{KnowledgeUnit, canonical_form, Codec}
use eka_core.Store.Rows.{PayloadRow, Ref, RefRow, Store, find_payload}
use eka_core.Store.Put.{Env, hash_unit}

pub data ViolationKind : Type 0 where
  payload_hash payload_decode reference_target reference_index : ViolationKind
  attachment_hash registry : ViolationKind

unfoldable pub kind_name : ViolationKind → String
kind_name payload_hash = "payload-hash"
kind_name payload_decode = "payload-decode"
kind_name reference_target = "reference-target"
kind_name reference_index = "reference-index"
kind_name attachment_hash = "attachment-hash"
kind_name registry = "registry"

-- What a violation shows: a recomputed digest, a missing row, a column, or an error of the decoder.
pub data Evidence : Type 0 where
  recomputed missing column : String → Evidence
  decode_error : Evidence

pub record IntegrityViolation : Type 0 where
  pub kind : ViolationKind
  pub subject : String
  pub evidence : Evidence

-- The rows of `attachments`, `repos` and `projects`.
pub record Attachment : Type 0 where
  pub id : String
  pub digest : String
  pub bytes : String

pub record Registry : Type 0 where
  pub attachments : List Attachment
  pub repos : List (String × String)
  pub projects : List String

pub record IntegrityReport : Type 0 where
  pub payloads_checked : ℕ
  pub refs_checked : ℕ
  pub attachments_checked : ℕ
  pub orphan_payloads : ℕ
  pub violations : List IntegrityViolation

unfoldable pub violation : ViolationKind → String → Evidence → List IntegrityViolation
violation kind subject evidence =
    record { kind = kind; subject = subject; evidence = evidence } ∷ []

abbrev pub hash_order : PayloadRow → PayloadRow → Bool
hash_order p q = text_below p.object_hash q.object_hash

-- SELECT … FROM object_payloads ORDER BY object_hash
unfoldable pub all_payloads : Store → List PayloadRow
unfolding sort
all_payloads s = sort hash_order s.payloads

unfoldable pub payload_violations : Codec → Env → PayloadRow → List IntegrityViolation
unfolding hash_unit violation
payload_violations codec env p =
    (if hash_unit env p.unit_json p.content == p.object_hash
      then []
      else violation payload_hash p.object_hash (recomputed (hash_unit env p.unit_json p.content)))
    ++ elim (codec.decode p.unit_json p.content) [
      | none ↦ violation payload_decode p.object_hash decode_error
      | some u ↦ []
    ]

-- The first column that differs.
unfoldable pub derive_ref_mismatch : Ref → KnowledgeUnit → Option String
unfolding canonical_form
derive_ref_mismatch r u =
    if not (r.namespace == u.identity.namespace)
    then some "namespace"
    else if not (r.ty == u.identity.ty)
    then some "type"
    else if not (r.id == u.identity.id)
    then some "id"
    else if not (eqb r.instance_version u.identity.instance_version)
    then some "instance_version"
    else if not (eqb r.revision u.revision)
    then some "revision"
    else if not (r.dimension == u.classification.dimension)
    then some "dimension"
    else if not (r.domain == u.classification.domain)
    then some "domain"
    else if not (r.phase == u.phase)
    then some "phase"
    else if not (r.form == canonical_form u.identity)
    then some "form"
    else none

unfoldable pub ref_violations : Codec → List PayloadRow → RefRow → List IntegrityViolation
unfolding find_payload derive_ref_mismatch violation
ref_violations codec payloads r = elim (find_payload r.object_hash payloads) [
  | none ↦ violation reference_target r.ref.form (missing r.object_hash)
  | some p ↦ elim (codec.decode p.unit_json p.content) [
    | none ↦ []
    | some u ↦ elim (derive_ref_mismatch r.ref u) [
      | none ↦ []
      | some name ↦ violation reference_index r.ref.form (column name)
    ]
  ]
]

unfoldable pub is_orphan : List RefRow → PayloadRow → Bool
unfolding any
is_orphan refs p = not (any (λ (r : RefRow). r.object_hash == p.object_hash) refs)

unfoldable pub attachment_violations : Env → Attachment → List IntegrityViolation
unfolding violation
attachment_violations env a =
    if env.sha256 a.bytes == a.digest
    then []
    else violation attachment_hash a.id (recomputed (env.sha256 a.bytes))

unfoldable pub registry_violations : List String → String × String → List IntegrityViolation
unfolding contains violation
registry_violations projects (project, name) =
    if contains projects project
    then []
    else violation registry (project ⊕ ("/" ⊕ name)) (missing project)

unfoldable pub violation_order : IntegrityViolation → IntegrityViolation → Bool
unfolding kind_name
violation_order a b =
    if kind_name a.kind == kind_name b.kind
    then text_below a.subject b.subject
    else text_below (kind_name a.kind) (kind_name b.kind)

-- The violations of the six levels, in the order in which they are found.
unfoldable pub found_violations : Codec → Env → Store → Registry → List IntegrityViolation
unfolding all_payloads payload_violations ref_violations attachment_violations registry_violations
    flat_map
found_violations codec env s registered =
    flat_map (payload_violations codec env) (all_payloads s)
    ++ (flat_map (ref_violations codec s.payloads) s.refs
        ++ (flat_map (attachment_violations env) registered.attachments
            ++ flat_map (registry_violations registered.projects) registered.repos))

unfoldable pub verify_integrity : Codec → Env → Store → Registry → IntegrityReport
unfolding all_payloads is_orphan found_violations violation_order filter sort
verify_integrity codec env s registered = record {
  payloads_checked = length (all_payloads s);
  refs_checked = length s.refs;
  attachments_checked = length registered.attachments;
  orphan_payloads = length (filter (is_orphan s.refs) (all_payloads s));
  violations = sort violation_order (found_violations codec env s registered);
}
