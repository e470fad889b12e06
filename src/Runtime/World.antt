-- ===== src/Runtime/World.antt =====
-- What a transition is given: the request, and what it reads of its surroundings.
use eka_core.Base.{ℕ, String, ◌≡◌, Bool, Option, List, Result, ok, err}
use eka_core.Conformance.Reference.{ReferenceError}
use eka_core.Exchange.{AuthorIdentity, Codec}
use eka_core.Store.Rows.{StoreError}
use eka_core.Store.Put.{Env}

-- `TransitionRequest`; the repository path is resolved by the `World`.
pub record TransitionRequest : Type 0 where
  pub target : String
  pub to : String
  pub forward : Bool
  pub backward : Bool
  pub by : String
  pub by_kind : String
  pub confirmed : Bool

pub record TransitionResult : Type 0 where
  pub target : String
  pub from : String
  pub to : String
  pub by : AuthorIdentity
  pub object_hash : String
  pub locked_plan : String
  pub locked_plan_hash : String
  pub warning : String

-- One cmt- draft as `conformance.ScanFile` reads it.
pub record DraftNote : Type 0 where
  pub namespace : String
  pub ty : String
  pub id : String
  pub role : String
  pub note_state : String
  pub discusses : List String

-- The registered repository: `FindRepo`.
pub record Repo : Type 0 where
  pub project : String
  pub name : String

-- The surroundings of one run: the serializer, the clock (`now` in RFC 3339, and the date), the
-- namespace of eka.yaml (`none` outside a repository), the registration, the scanned drafts of a
-- project (`none` if the directory cannot be read), and the role in a note's JSON payload.
pub record World : Type 0 where
  pub codec : Codec
  pub now : String
  pub today : String
  pub meta_namespace : Option String
  pub repo : Option Repo
  pub drafts : String → Option (List DraftNote)
  pub payload_role : String → String

abbrev pub store_env : World → Env
store_env w = record { sha256 = w.codec.sha256; now = w.now }

pub data GateViolation : Type 0 where
  needs_implementation_note : ℕ → GateViolation
  open_notes : List String → GateViolation

-- The errors and refusals of `Transition`, with the values that their messages show.
pub data Failure : Type 0 where
  authority_required : Failure
  unknown_author_kind : String → Failure
  both_to_and_direction both_directions : Failure
  not_a_repository : Failure
  invalid_target : ReferenceError → Failure
  published_form : Failure
  not_transitionable : String → Failure
  other_namespace : String → Failure
  not_registered : Failure
  store_failure : StoreError → Failure
  not_in_store : String → Failure
  no_state : String → String → Failure
  no_forward_step no_backward_step : String → Failure
  not_in_table : String → String → Failure
  forward_only : Failure
  is_terminal : String → Failure
  gate : GateViolation → Failure
  drafts_unreadable : Failure
  unconfirmed : String → Failure
  plan_lock : Failure
  containers_unreadable : Failure
  plan_in_use : String → List String → Failure
  container_active : String → Failure
  closure_shared : String → String → Failure
  no_plan several_plans : Failure
  plan_missing plan_retired : String → Failure
  plan_not_approved : String → String → Failure
  items_pending : List String → Failure
  not_superseded : String → Failure
  unserializable : String → Failure
  out_of_fuel : Failure

abbrev pub from_store : {A : Type 0} → Result StoreError A → Result Failure A
from_store (ok a) = ok a
from_store (err e) = err (store_failure e)

pub from_store-ok : {A : Type 0} (m : Result StoreError A) (a : A) → from_store m ≡ ok a → m ≡ ok a
from_store-ok (ok x) a e = cc
from_store-ok (err f) a e = absurd (cc)
