-- ===== src/Store/Integrity/Clean.antt =====
-- What a store holds when its integrity scan (store/integrity.go) finds nothing.
use eka_core.Base.{
  String, ◌≡◌, refl, ◌↔◌, inl, inr, Bool, true, false, not, Option, none, some, List, [], ◌∷◌, ◌++◌,
  arith, eq_iff, eqb, ◌==◌, if◌then◌else◌, Bool-cases, Option-cases, eq_of_==, ==_of_eq, not-both,
  eq_of_eqb, eqb_of_eq, Member, All, flat_map, ◌⊕◌, sort-eq-nil, contains_iff, append-eq-nil,
  All-iff, flat_map-All, All-sort,
}
use eka_core.Exchange.{KnowledgeUnit, canonical_form, Codec}
use eka_core.Store.Rows.{PayloadRow, Ref, RefRow, Store, find_payload}
use eka_core.Store.Put.{Env, hash_unit}
use eka_core.Store.Integrity.{
  Attachment, Registry, violation, hash_order, all_payloads, payload_violations,
  derive_ref_mismatch, ref_violations, attachment_violations, registry_violations, violation_order,
  found_violations, verify_integrity,
}

-- The derived columns of a reference are those of the unit, and its form is the canonical one.
pub record IsDerived (r : Ref) (u : KnowledgeUnit) : Type 0 where
  pub namespace : r.namespace ≡ u.identity.namespace
  pub ty : r.ty ≡ u.identity.ty
  pub id : r.id ≡ u.identity.id
  pub instance_version : r.instance_version ≡ u.identity.instance_version
  pub revision : r.revision ≡ u.revision
  pub dimension : r.dimension ≡ u.classification.dimension
  pub domain : r.domain ≡ u.classification.domain
  pub phase : r.phase ≡ u.phase
  pub form : r.form ≡ canonical_form u.identity

-- The row has the digest of its bytes for a key, and the bytes decode.
abbrev pub IsSoundPayload : Codec → Env → PayloadRow → Type 0
IsSoundPayload codec env p =
    (env.sha256 (p.unit_json ⊕ p.content) ≡ p.object_hash)
    × ((u : KnowledgeUnit) × (codec.decode p.unit_json p.content ≡ some u))

-- The reference points at a stored payload, and its columns are derived from it.
abbrev pub IsSoundRef : Codec → List PayloadRow → RefRow → Type 0
IsSoundRef codec payloads r =
    (p : PayloadRow) × (u : KnowledgeUnit) × (find_payload r.object_hash payloads ≡ some p)
    × (codec.decode p.unit_json p.content ≡ some u)
    × IsDerived r.ref u

abbrev pub IsSoundAttachment : Env → Attachment → Type 0
IsSoundAttachment env a = env.sha256 a.bytes ≡ a.digest

abbrev pub IsSoundRepo : List String → String × String → Type 0
IsSoundRepo projects row = Member row.0 projects

guard-eq-none :
    (test : Bool) (name : String) (rest : Option String)
    → (if not test then some name else rest) ≡ none ↔ ((test ≡ true) × (rest ≡ none))
guard-eq-none true name rest = (λ e. (refl, e), λ (t, e). e)
guard-eq-none false name rest = (λ e. absurd (cc), λ (t, e). absurd (cc))

derive_ref_mismatch-eq-none :
    (r : Ref) (u : KnowledgeUnit) → derive_ref_mismatch r u ≡ none ↔ IsDerived r u
unfolding derive_ref_mismatch
derive_ref_mismatch-eq-none r u = (
  λ e.
      let (a, e1) = (guard-eq-none (r.namespace == u.identity.namespace) _ _).0 e in
      let (b, e2) = (guard-eq-none (r.ty == u.identity.ty) _ _).0 e1 in
      let (c, e3) = (guard-eq-none (r.id == u.identity.id) _ _).0 e2 in
      let (d, e4) = (guard-eq-none (eqb r.instance_version u.identity.instance_version) _ _).0 e3 in
      let (f, e5) = (guard-eq-none (eqb r.revision u.revision) _ _).0 e4 in
      let (g, e6) = (guard-eq-none (r.dimension == u.classification.dimension) _ _).0 e5 in
      let (h, e7) = (guard-eq-none (r.domain == u.classification.domain) _ _).0 e6 in
      let (i, e8) = (guard-eq-none (r.phase == u.phase) _ _).0 e7 in
      let (j, e9) = (guard-eq-none (r.form == canonical_form u.identity) _ _).0 e8 in
      record {
        namespace = eq_of_== _ _ a;
        ty = eq_of_== _ _ b;
        id = eq_of_== _ _ c;
        instance_version = eq_of_eqb _ _ d;
        revision = eq_of_eqb _ _ f;
        dimension = eq_of_== _ _ g;
        domain = eq_of_== _ _ h;
        phase = eq_of_== _ _ i;
        form = eq_of_== _ _ j;
      },
  λ d.
      rw
        (
          ==_of_eq _ _ d.namespace,
          ==_of_eq _ _ d.ty,
          ==_of_eq _ _ d.id,
          eqb_of_eq _ _ d.instance_version,
          eqb_of_eq _ _ d.revision,
          ==_of_eq _ _ d.dimension,
          ==_of_eq _ _ d.domain,
          ==_of_eq _ _ d.phase,
          ==_of_eq _ _ d.form,
        )
        refl,
)

mem-find_payload :
    (h : String) (ps : List PayloadRow) (p : PayloadRow) → find_payload h ps ≡ some p → Member p ps
unfolding find_payload
mem-find_payload h [] p e = absurd (cc)
mem-find_payload h (q ∷ ps) p e = elim (Bool-cases (q.object_hash == h)) [
  | inl hit ↦ inl (cc (rw hit at e))
  | inr miss ↦ inr (mem-find_payload h ps p (rw miss at e))
]

payload_violations-eq-nil :
    (codec : Codec) (env : Env) (p : PayloadRow)
    → payload_violations codec env p ≡ [] ↔ IsSoundPayload codec env p
unfolding payload_violations violation hash_unit
payload_violations-eq-nil codec env p =
    elim (Bool-cases (hash_unit env p.unit_json p.content == p.object_hash)) [
      | inr other ↦ (
        λ e. absurd (cc (rw (other, payload_violations) at e)),
        λ (same, good). not-both (==_of_eq _ _ same) other,
      )
      | inl same ↦ elim (Option-cases (codec.decode p.unit_json p.content)) [
        | inl bad ↦ (
          λ e. absurd (cc (rw (same, bad, payload_violations) at e)),
          λ (hash, (u, good)). absurd (cc (good, bad)),
        )
        | inr (u, good) ↦
            (λ e. (eq_of_== _ _ same, (u, good)), λ sound. rw (same, good, payload_violations) refl)
      ]
    ]

ref_violations-eq-nil :
    (codec : Codec) (env : Env) (payloads : List PayloadRow) (r : RefRow)
    → All (IsSoundPayload codec env) payloads
    → ref_violations codec payloads r ≡ [] ↔ IsSoundRef codec payloads r
unfolding ref_violations violation
ref_violations-eq-nil codec env payloads r sound = (
  λ e. elim (Option-cases (find_payload r.object_hash payloads)) [
    | inl gone ↦ absurd (cc (rw (gone, ref_violations) at e))
    | inr (p, found) ↦
        let there = mem-find_payload r.object_hash payloads p found in
        let (hash, (u, good)) = (All-iff (IsSoundPayload codec env) payloads).0 sound p there in
        elim (Option-cases (derive_ref_mismatch r.ref u)) [
          | inl same ↦ (p, u, found, good, (derive_ref_mismatch-eq-none r.ref u).0 same)
          | inr (name, differs) ↦ absurd (cc (rw (found, good, differs, ref_violations) at e))
        ]
  ],
  λ (p, u, found, good, d).
      rw (found, good, (derive_ref_mismatch-eq-none r.ref u).1 d, ref_violations) refl,
)

attachment_violations-eq-nil :
    (env : Env) (a : Attachment) → attachment_violations env a ≡ [] ↔ IsSoundAttachment env a
unfolding attachment_violations violation
attachment_violations-eq-nil env a = ground (arith, eq_iff (env.sha256 a.bytes) a.digest)

registry_violations-eq-nil :
    (projects : List String) (row : String × String)
    → registry_violations projects row ≡ [] ↔ IsSoundRepo projects row
unfolding registry_violations violation
registry_violations-eq-nil projects (project, name) = ground (arith, contains_iff projects project)

-- The integrity scan reports no violation exactly if every payload has the digest of its bytes for its
-- key and decodes, every reference points at a stored payload whose unit has the reference's columns
-- and canonical form, every attachment has the digest of its bytes, and the project of every
-- repository is registered.
pub verify_integrity-eq-nil :
    (codec : Codec) (env : Env) (s : Store) (registered : Registry)
    → (verify_integrity codec env s registered).violations ≡ [] ↔ (
        All (IsSoundPayload codec env) s.payloads
        × All (IsSoundRef codec s.payloads) s.refs
        × All (IsSoundAttachment env) registered.attachments
        × All (IsSoundRepo registered.projects) registered.repos)
unfolding verify_integrity found_violations all_payloads
verify_integrity-eq-nil codec env s registered =
    let repos = flat_map (registry_violations registered.projects) registered.repos in
    let files = flat_map (attachment_violations env) registered.attachments in
    let refs = flat_map (ref_violations codec s.payloads) s.refs in
    let payloads = flat_map (payload_violations codec env) (all_payloads s) in
    let quiet = sort-eq-nil violation_order (found_violations codec env s registered) in
    let three = append-eq-nil payloads (refs ++ (files ++ repos)) in
    let two = append-eq-nil refs (files ++ repos) in
    let one = append-eq-nil files repos in
    let sorted =
      flat_map-All (payload_violations codec env) (IsSoundPayload codec env) (all_payloads s)
        (payload_violations-eq-nil codec env) in
    let unsorted = All-sort hash_order (IsSoundPayload codec env) s.payloads in
    let ref_part : All (IsSoundPayload codec env) s.payloads
        → refs ≡ [] ↔ All (IsSoundRef codec s.payloads) s.refs =
      λ sound.
        flat_map-All (ref_violations codec s.payloads) (IsSoundRef codec s.payloads) s.refs
          (λ r. ref_violations-eq-nil codec env s.payloads r sound) in
    let file_part =
      flat_map-All (attachment_violations env) (IsSoundAttachment env) registered.attachments
        (attachment_violations-eq-nil env) in
    let repo_part =
      flat_map-All (registry_violations registered.projects) (IsSoundRepo registered.projects)
        registered.repos (registry_violations-eq-nil registered.projects) in
    (
      λ e.
          let (p, rest) = three.0 (quiet.0 e) in
          let (r, last) = two.0 rest in
          let (f, g) = one.0 last in
          let sound = unsorted.0 (sorted.0 p) in
          (sound, (ref_part sound).0 r, file_part.0 f, repo_part.0 g),
      λ (sound, r, f, g). quiet.1 (
          three.1 (
            sorted.1 (unsorted.1 sound),
            two.1 ((ref_part sound).1 r, one.1 (file_part.1 f, repo_part.1 g)),
          )),
    )
