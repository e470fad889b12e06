-- ===== src/Exchange.antt =====
-- exchange/model.go and conformance/identity.go: the Canonical Knowledge Object, and the
-- serialization that the store and the runtime call.
pub mod Projection
pub mod Conflict
pub mod References
use eka_core.Base.{ℕ, String, Bool, Option, List, [], ◌∷◌, ◌==◌, any, ◌⊕◌, itoa}

-- conformance/identity.go
pub record AuthorIdentity : Type 0 where
  pub kind : String
  pub name : String

abbrev pub kind_user : String
kind_user = "user"

abbrev pub author_kinds : List String
author_kinds = kind_user ∷ "agent" ∷ "worker" ∷ []

unfoldable pub is_author_kind : String → Bool
unfolding any
is_author_kind s = any (λ k. k == s) author_kinds

pub record Identity : Type 0 where
  pub namespace : String
  pub ty : String
  pub id : String
  pub instance_version : ℕ

pub record StateVector : Type 0 where
  pub content_state : String
  pub execution_state : String
  pub planning_state : String
  pub container_state : String
  pub existence_state : String
  pub note_state : String

pub record ChangeLogEntry : Type 0 where
  pub date : String
  pub domain : String
  pub from : String
  pub to : String
  pub by : AuthorIdentity

pub record Relationship : Type 0 where
  pub ty : String
  pub target : String

pub record Classification : Type 0 where
  pub dimension : String
  pub dimensions_secondary : List String
  pub domain : String

pub record CaptureMeta : Type 0 where
  pub classifier : String
  pub dedupe_key : String

pub record ContentRef : Type 0 where
  pub representation : String
  pub file : String

-- `confidence` is a float64 that no code here computes with: its text.
pub record KnowledgeUnit : Type 0 where
  pub identity : Identity
  pub canonical_identity_form : String
  pub revision : ℕ
  pub author : AuthorIdentity
  pub created : String
  pub updated : String
  pub state_vector : StateVector
  pub change_log : List ChangeLogEntry
  pub relationships : List Relationship
  pub classification : Classification
  pub phase : String
  pub provenance : String
  pub source_prompt_hash : String
  pub confidence : String
  pub source_commit_sha : String
  pub capture_meta : CaptureMeta
  pub content : ContentRef
  pub content_payload : String
  pub unit_dir : String
  pub digest : String

unfoldable pub line_of : Identity → String
line_of i = i.namespace ⊕ ("/" ⊕ (i.ty ⊕ (":" ⊕ i.id)))

unfoldable pub canonical_form : Identity → String
unfolding itoa
canonical_form i = i.namespace ⊕ ("/" ⊕ (i.ty ⊕ (":" ⊕ (i.id ⊕ (":" ⊕ itoa i.instance_version)))))

-- `encoding/json` under `MarshalUnit` and `DecodeUnit`, and `crypto/sha256` with `hex`.
pub record Codec : Type 0 where
  pub marshal : KnowledgeUnit → Option String
  pub decode : String → String → Option KnowledgeUnit
  pub sha256 : String → String

-- What `json:"-"` keeps out of the bytes: the payload is given back by the caller.
abbrev pub decoded : KnowledgeUnit → String → KnowledgeUnit
decoded u payload = record u { content_payload = payload; unit_dir = ""; digest = "" }
