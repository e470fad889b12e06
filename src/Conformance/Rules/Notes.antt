-- ===== src/Conformance/Rules/Notes.antt =====
-- conformance/graph.go: R13, the graph pass over the notes and the work items.
pub mod Gates
use eka_core.Base.{
  String, Bool, true, false, not, ◌&&◌, ◌||◌, Option, none, some, List, [], ◌∷◌, ◌++◌, map, ltb,
  eqb, ◌==◌, if◌then◌else◌, length, any, filter, flat_map, is_some, ok, err, text_below, sort,
}
use eka_core.Conformance.State.{domain_execution_state, domain_note_state, is_work_item_type}
use eka_core.Conformance.Reference.{Reference, parse_reference, line_form}
use eka_core.Conformance.Artifact.{Artifact, state_of, relation, same_file}
use eka_core.Conformance.Engine.{
  Detail, Finding, resolve_in, discusses_unresolved, replies_unresolved, replies_not_note,
  several_parents, several_members, assigned_not_member, assigned_unresolved, assigned_elsewhere,
  review_gate, done_gate,
}
use eka_core.Conformance.Rules.NoteContent.{note_finding, text_at, validate_note_content}

-- `GraphOptions`
pub record GraphOptions : Type 0 where
  pub resolve : Option (Reference → Bool)
  pub skip_gates : Bool

unfoldable pub resolved : List Artifact → GraphOptions → Reference → Bool
unfolding resolve_in
resolved artifacts o r = elim o.resolve [
  | some resolves ↦ resolves r
  | none ↦ is_some (resolve_in artifacts r)
]

discusses_findings : List Artifact → GraphOptions → Artifact → String → List Finding
unfolding parse_reference resolved note_finding
discusses_findings artifacts o a raw = elim (parse_reference raw a.namespace a.ty) [
  | err bad ↦ []
  | ok r ↦ note_finding a (not (resolved artifacts o r)) (discusses_unresolved raw)
]

replies_findings : List Artifact → GraphOptions → Artifact → String → List Finding
unfolding parse_reference resolved note_finding
replies_findings artifacts o a raw = elim (parse_reference raw a.namespace a.ty) [
  | err bad ↦ []
  | ok r ↦
      if r.ty == "cmt"
      then note_finding a (not (resolved artifacts o r)) (replies_unresolved raw)
      else note_finding a true (replies_not_note raw)
]

note_pass : List Artifact → GraphOptions → Artifact → List Finding
unfolding validate_note_content flat_map discusses_findings replies_findings relation note_finding
note_pass artifacts o a =
    let parents = relation "replies-to" a in
    if a.ty == "cmt"
    then validate_note_content a
      ++ (flat_map (discusses_findings artifacts o a) (relation "discusses" a)
          ++ (flat_map (replies_findings artifacts o a) parents
              ++ note_finding a (ltb 1 (length parents)) (several_parents (length parents))))
    else []

unfoldable pub assignee_findings : List Artifact → GraphOptions → Artifact → String → List Finding
unfolding parse_reference resolved note_finding
assignee_findings artifacts o a raw = elim (parse_reference raw a.namespace a.ty) [
  | err bad ↦ []
  | ok r ↦
      if not (r.ty == "mbr")
      then note_finding a true (assigned_not_member raw)
      else if not (resolved artifacts o r)
      then note_finding a true (assigned_unresolved raw)
      else note_finding a (not (r.namespace == a.namespace)) (assigned_elsewhere raw)
]

unfoldable pub assigned_to_findings : List Artifact → GraphOptions → Artifact → List Finding
unfolding relation flat_map assignee_findings note_finding
assigned_to_findings artifacts o a =
    let raws = relation "assigned-to" a in
    flat_map (assignee_findings artifacts o a) raws
    ++ note_finding a (ltb 1 (length raws)) (several_members (length raws))

-- One reference of a note names the work item.
unfoldable pub discusses_item : Artifact → Artifact → String → Bool
unfolding parse_reference
discusses_item a b raw = elim (parse_reference raw b.namespace b.ty) [
  | err bad ↦ false
  | ok r ↦
      (r.namespace == a.namespace && (r.ty == a.ty && r.id == a.id))
      && (not r.has_version || eqb r.version a.instance_version)
]

unfoldable pub notes_discussing : List Artifact → Artifact → List Artifact
unfolding filter any same_file discusses_item relation
notes_discussing artifacts a =
    filter
      (λ b.
        (not (same_file b a) && b.ty == "cmt") && any (discusses_item a b) (relation "discusses" b))
      artifacts

unfoldable pub note_role : Artifact → String
unfolding text_at
note_role n = elim n.content_fields [ none ↦ "" | some object ↦ text_at "role" object ]

unfoldable pub note_identity_form : Artifact → String
unfolding line_form
note_identity_form n = line_form n.namespace n.ty n.id

unfoldable pub is_review_evidence : Artifact → Bool
unfolding note_role state_of
is_review_evidence n = note_role n == "implementation" && state_of domain_note_state n == "resolved"

unfoldable pub done_findings : Artifact → List String → List Finding
unfolding note_finding
done_findings a [] = []
done_findings a (form ∷ forms) = note_finding a true (done_gate (sort text_below (form ∷ forms)))

unfoldable pub gate_findings : List Artifact → Artifact → String → List Finding
unfolding notes_discussing any is_review_evidence done_findings filter state_of note_identity_form
    note_finding
gate_findings artifacts a state =
    let notes = notes_discussing artifacts a in
    if state == "in-review"
    then note_finding a (not (any is_review_evidence notes)) review_gate
    else if state == "done"
    then done_findings a (
        map note_identity_form
          (filter (λ n. not (state_of domain_note_state n == "resolved")) notes))
    else []

unfoldable pub gate_pass : List Artifact → GraphOptions → Artifact → List Finding
unfolding is_work_item_type state_of gate_findings assigned_to_findings
gate_pass artifacts o a =
    let state = state_of domain_execution_state a in
    if is_work_item_type a.ty && (state == "in-review" || state == "done")
    then gate_findings artifacts a state ++ assigned_to_findings artifacts o a
    else []

-- `render` is the text of a message.
graph_order : (Detail → String) → Finding → Finding → Bool
graph_order render a b =
    if a.file == b.file
    then text_below (render a.detail) (render b.detail)
    else text_below a.file b.file

unfoldable pub validate_graph : (Detail → String) → List Artifact → GraphOptions → List Finding
unfolding flat_map note_pass gate_pass sort graph_order
validate_graph render artifacts o = sort (graph_order render) (
    flat_map (note_pass artifacts o) artifacts
    ++ (if o.skip_gates then [] else flat_map (gate_pass artifacts o) artifacts))
