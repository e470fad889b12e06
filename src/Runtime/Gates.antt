-- ===== src/Runtime/Gates.antt =====
-- runtime/transition.go: the notes of a work item, the R13 gates, and ticket membership.
pub mod Registered
use eka_core.Base.{
  String, Bool, false, not, ◌&&◌, Option, none, some, List, [], ◌∷◌, ◌++◌, map, ◌==◌, if◌then◌else◌,
  length, any, filter, lookup, is_some, contains, Result, ◌>>=◌, ok, err, ◌⊕◌, text_below, sort,
}
use eka_core.Conformance.State.{is_work_item_type}
use eka_core.Conformance.Reference.{Reference, parse_reference, reference_line}
use eka_core.Exchange.{Relationship, KnowledgeUnit}
use eka_core.Store.Rows.{Store}
use eka_core.Store.Query.{units, units_by_project}
use eka_core.Runtime.World.{
  DraftNote, World, GateViolation, Failure, from_store, needs_implementation_note, open_notes,
  drafts_unreadable,
}
use eka_core.Runtime.Units.{by_line, of_type, target_of, same_line}

pub record GateNote : Type 0 where
  pub role : String
  pub note_state : String
  pub identity : String

-- One reference names the target line.
unfoldable pub names_line : Reference → Option Reference → Bool
names_line target none = false
names_line target (some r) = same_line r target

unfoldable pub discusses_target : Reference → KnowledgeUnit → Bool
unfolding target_of
discusses_target target u =
    any (λ rel. rel.ty == "discusses" && names_line target (target_of u rel)) u.relationships

unfoldable pub discusses_target_artifact : Reference → DraftNote → Bool
discusses_target_artifact target d =
    any
      (λ raw. elim (parse_reference raw d.namespace d.ty) [
        | ok r ↦ same_line r target
        | err e ↦ false
      ])
      d.discusses

unfoldable pub note_role_of : World → KnowledgeUnit → String
note_role_of w u =
    if u.content.representation == "eka/structured-json/1"
    then w.payload_role u.content_payload
    else ""

unfoldable pub note_of_unit : World → KnowledgeUnit → GateNote
note_of_unit w u = record {
  role = note_role_of w u;
  note_state = u.state_vector.note_state;
  identity = u.identity.namespace ⊕ ("/cmt:" ⊕ u.identity.id);
}

unfoldable pub note_of_draft : DraftNote → GateNote
note_of_draft d = record {
  role = d.role;
  note_state = d.note_state;
  identity = d.namespace ⊕ ("/cmt:" ⊕ d.id);
}

values : List (String × KnowledgeUnit) → List KnowledgeUnit
values [] = []
values ((k, u) ∷ m) = u ∷ values m

-- The published notes, one for each line, and then the drafts.
unfoldable pub collect_gate_notes :
    World → Store → String → Reference → Result Failure (List GateNote)
unfolding values
collect_gate_notes w s project target = from_store (units_by_project w.codec s project) >>= λ units.
    let published =
      map (note_of_unit w)
        (values (by_line (filter (discusses_target target) (of_type "cmt" units)))) in
    elim (w.drafts project) [
      | none ↦ err drafts_unreadable
      | some drafts ↦ ok (
          sort (λ a b. text_below a.identity b.identity)
            (published
              ++ map note_of_draft
                  (filter (λ d. d.ty == "cmt" && discusses_target_artifact target d) drafts)))
    ]

unfoldable pub is_resolved_implementation : GateNote → Bool
is_resolved_implementation n = n.role == "implementation" && n.note_state == "resolved"

unfoldable pub is_unresolved : GateNote → Bool
is_unresolved n = not (n.note_state == "resolved")

abbrev pub violation_of : List String → Option GateViolation
violation_of [] = none
violation_of (x ∷ xs) = some (open_notes (sort text_below (x ∷ xs)))

-- The first of the violations; `none` is an empty list.
unfoldable pub gate_violations : List GateNote → String → Option GateViolation
gate_violations notes to =
    if to == "in-review"
    then if any is_resolved_implementation notes
      then none
      else some (needs_implementation_note (length notes))
    else if to == "done"
    then violation_of (map (λ (n : GateNote). n.identity) (filter is_unresolved notes))
    else none

-- The container line and the work item line that a ticket registers; "" is none. The relationships
-- are read in order, and the first of each kind counts.
unfoldable pub membership_step :
    List (String × KnowledgeUnit) → KnowledgeUnit → String × String → Relationship → String × String
membership_step lines u (container, item) rel =
    if rel.ty == "derives-from"
    then elim (target_of u rel) [
      | none ↦ (container, item)
      | some r ↦
          let line = reference_line r in
          if is_some (lookup line lines)
          then if container == "" && r.ty == "ctr"
            then (line, item)
            else if item == "" && is_work_item_type r.ty
            then (container, line)
            else (container, item)
          else (container, item)
    ]
    else (container, item)

pub membership_from :
    List (String × KnowledgeUnit)
    → KnowledgeUnit
    → String × String
    → List Relationship
    → String × String
membership_from lines u acc [] = acc
membership_from lines u acc (rel ∷ rels) =
    membership_from lines u (membership_step lines u acc rel) rels

unfoldable pub ticket_membership : List (String × KnowledgeUnit) → KnowledgeUnit → String × String
unfolding membership_from
ticket_membership lines u = membership_from lines u ("", "") u.relationships

-- The lines of the containers that are active in some instance.
unfoldable pub active_lines : List KnowledgeUnit → List String
active_lines units =
    map (λ (u : KnowledgeUnit). u.identity.namespace ⊕ ("/ctr:" ⊕ u.identity.id))
      (filter (λ u. u.state_vector.container_state == "active") (of_type "ctr" units))

unfoldable pub registers : List KnowledgeUnit → String → KnowledgeUnit → Bool
registers units target_line ticket =
    let (container, item) = ticket_membership (by_line units) ticket in
    not (container == "") && (contains (active_lines units) container && item == target_line)

-- An unreadable store never confirms.
unfoldable pub registered_in_active_container : World → Store → String → Reference → Bool
registered_in_active_container w s project target = elim (units_by_project w.codec s project) [
  | err e ↦ false
  | ok units ↦ any (registers units (reference_line target)) (of_type "tkt" units)
]

-- The lines that the tickets of a container register, each once, in the order of the tickets.
registered_items :
    List (String × KnowledgeUnit) → String → List String → List KnowledgeUnit → List String
registered_items lines ctr_line seen [] = seen
registered_items lines ctr_line seen (t ∷ ts) =
    let (container, item) = ticket_membership lines t in
    let more =
      if container == ctr_line && (not (item == "") && not (contains seen item))
      then seen ++ item ∷ []
      else seen in
    registered_items lines ctr_line more ts

-- The unit of a line that parses and resolves.
resolve_items : List (String × KnowledgeUnit) → List String → List KnowledgeUnit
resolve_items lines [] = []
resolve_items lines (item ∷ items) =
    let rest = resolve_items lines items in
    elim (parse_reference item "" "") [
      | err e ↦ rest
      | ok r ↦ elim (lookup (reference_line r) lines) [ none ↦ rest | some u ↦ u ∷ rest ]
    ]

-- A store failure gives no work items.
unfoldable pub container_work_items : World → Store → String → Reference → List KnowledgeUnit
unfolding registered_items resolve_items
container_work_items w s project ctr = elim (units_by_project w.codec s project) [
  | err e ↦ []
  | ok units ↦
      let lines = by_line units in
      sort (λ a b. text_below a.canonical_identity_form b.canonical_identity_form)
        (resolve_items lines (registered_items lines (reference_line ctr) [] (of_type "tkt" units)))
]
