-- ===== src/Runtime/Transition/WorkItem.antt =====
-- The gates of a work item.
use mathlib.Core.Path.{subst}
use eka_core.Base.{
  String, ◌≡◌, refl, sym, ap, ◌∙◌, inl, inr, false, none, List, ◌==◌, Bool-cases, Option-cases,
  eq_of_==, &&_elim, any, mem-any, filter, Member, List-cases, >>=-eq-ok, eq_of_ok-eq-ok, if-eq-ok,
  if_else_err-eq-ok, ok, Member-filter,
}
use eka_core.Conformance.State.{domain_execution_state, is_legal_execution_transition}
use eka_core.Conformance.Reference.{Reference, reference_line}
use eka_core.Exchange.{AuthorIdentity, KnowledgeUnit}
use eka_core.Store.Rows.{Store}
use eka_core.Runtime.World.{TransitionRequest, TransitionResult, World}
use eka_core.Runtime.Gates.{
  GateNote, collect_gate_notes, is_resolved_implementation, is_unresolved, gate_violations,
  registered_in_active_container,
}
use eka_core.Runtime.Gates.Registered.{IsRegistered, confirmed-IsRegistered}
use eka_core.Store.Query.{units_by_project}
use eka_core.Runtime.Publish.{transitioned, publish, plain_result}
use eka_core.Runtime.Transition.{
  work_item_destination, note_gate, membership_gate, transition_work_item,
}

review_gate :
    (notes : List GateNote)
    → gate_violations notes "in-review" ≡ none
    → (n : GateNote) × Member n notes × (n.role ≡ "implementation") × (n.note_state ≡ "resolved")
unfolding gate_violations is_resolved_implementation
review_gate notes h = elim (Bool-cases (any is_resolved_implementation notes)) [
  | inr nothing ↦ absurd (cc (rw (nothing, gate_violations) at h))
  | inl some_note ↦
      let (n, m, t) = mem-any is_resolved_implementation notes some_note in
      let (a, b) = &&_elim (n.role == "implementation") (n.note_state == "resolved") t in
      (n, m, eq_of_== n.role _ a, eq_of_== n.note_state _ b)
]

done_gate :
    (notes : List GateNote) (n : GateNote)
    → gate_violations notes "done" ≡ none
    → Member n notes
    → n.note_state ≡ "resolved"
unfolding gate_violations is_unresolved
done_gate notes n h m = elim (List-cases (filter is_unresolved notes)) [
  | inr (x, xs, unresolved) ↦ absurd (cc (rw (unresolved, gate_violations) at h))
  | inl clear ↦ elim (Bool-cases (n.note_state == "resolved")) [
    | inl is_resolved ↦ eq_of_== n.note_state _ is_resolved
    | inr other ↦
        absurd (subst (Member n) clear ((Member-filter is_unresolved n notes).1 (m, rw other refl)))
  ]
]

-- What a transition of a work item that succeeds has passed.
record Passed (w : World) (s : Store) (project : String) (ref : Reference) (req : TransitionRequest)
    (result : TransitionResult) : Type 0 where
  notes : List GateNote
  collected : collect_gate_notes w s project ref ≡ ok notes
  clear : gate_violations notes result.to ≡ none
  member : membership_gate w s project ref req ≡ ok result.warning

module _ (w : World) (s : Store) (project source_repo : String) (ref : Reference)
    (current : KnowledgeUnit) (from : String) (req : TransitionRequest) (by : AuthorIdentity)
    (after : Store) (result : TransitionResult) where
  passed :
      transition_work_item w s project source_repo ref current from req by ≡ ok (after, result)
      → Passed w s project ref req result
  unfolding transition_work_item note_gate
  passed e =
      let (to, dest, rest) = >>=-eq-ok (work_item_destination req from) _ e in
      let (allowed, gated) = if_else_err-eq-ok (is_legal_execution_transition from to) _ _ rest in
      let (free, noted, e1) = >>=-eq-ok (note_gate w s project ref to) _ gated in
      let (warning, confirmed, put) = >>=-eq-ok (membership_gate w s project ref req) _ e1 in
      let ((t, hash), published, answer) =
        >>=-eq-ok
          (publish w s project source_repo
            (transitioned w.today domain_execution_state from to by current))
          _ put in
      let same =
        eq_of_ok-eq-ok (t, plain_result (reference_line ref) from to by hash warning)
          (after, result) answer in
      let (notes, collected, judged) = >>=-eq-ok (collect_gate_notes w s project ref) _ noted in
      elim (Option-cases (gate_violations notes to)) [
        | inr (v, violated) ↦ absurd (cc (rw violated at judged))
        | inl clear ↦ record {
          notes = notes;
          collected = collected;
          clear = ap (gate_violations notes) (sym (ap (λ p. p.1.to) same)) ∙ clear;
          member = confirmed ∙ ap (λ p. ok p.1.warning) same;
        }
      ]

-- A work item enters in-review only if some implementation note about it is resolved.
pub review_needs_note :
    (w : World) (s : Store) (project source_repo : String) (ref : Reference)
    (current : KnowledgeUnit) (from : String) (req : TransitionRequest) (by : AuthorIdentity)
    (after : Store) (result : TransitionResult)
    → transition_work_item w s project source_repo ref current from req by ≡ ok (after, result)
    → result.to ≡ "in-review"
    → (notes : List GateNote) × (n : GateNote) × (collect_gate_notes w s project ref ≡ ok notes)
      × Member n notes
      × (n.role ≡ "implementation")
      × (n.note_state ≡ "resolved")
review_needs_note w s project source_repo ref current from req by after result e review =
    let p = passed w s project source_repo ref current from req by after result e in
    let (n, m, role, state) =
      review_gate p.notes (ap (gate_violations p.notes) (sym review) ∙ p.clear) in
    (p.notes, n, p.collected, m, role, state)

-- A work item becomes done only if every note about it is resolved.
pub done_needs_notes :
    (w : World) (s : Store) (project source_repo : String) (ref : Reference)
    (current : KnowledgeUnit) (from : String) (req : TransitionRequest) (by : AuthorIdentity)
    (after : Store) (result : TransitionResult) (notes : List GateNote) (n : GateNote)
    → transition_work_item w s project source_repo ref current from req by ≡ ok (after, result)
    → result.to ≡ "done"
    → collect_gate_notes w s project ref ≡ ok notes
    → Member n notes
    → n.note_state ≡ "resolved"
done_needs_notes w s project source_repo ref current from req by after result notes n e done read
      m =
    let p = passed w s project source_repo ref current from req by after result e in
    let same = eq_of_ok-eq-ok p.notes notes (sym p.collected ∙ read) in
    done_gate p.notes n (ap (gate_violations p.notes) (sym done) ∙ p.clear) (rw same m)

-- Without the caller's confirmation, a work item moves only if a ticket unit of the project derives
-- from the item and from a container of which some instance, not always the highest, is active. There
-- is no warning then.
pub unconfirmed_needs_container :
    (w : World) (s : Store) (project source_repo : String) (ref : Reference)
    (current : KnowledgeUnit) (from : String) (req : TransitionRequest) (by : AuthorIdentity)
    (after : Store) (result : TransitionResult)
    → transition_work_item w s project source_repo ref current from req by ≡ ok (after, result)
    → req.confirmed ≡ false
    → (us : List KnowledgeUnit) × (units_by_project w.codec s project ≡ ok us)
      × IsRegistered us ref
      × (result.warning ≡ "")
unfolding membership_gate
unconfirmed_needs_container w s project source_repo ref current from req by after result e unasked =
    let p = passed w s project source_repo ref current from req by after result e in
    elim (if-eq-ok (registered_in_active_container w s project ref) _ _ p.member) [
      | inl (inside, quiet) ↦
          let (us, read, registered) = confirmed-IsRegistered w s project ref inside in
          (us, read, registered, sym (eq_of_ok-eq-ok "" result.warning quiet))
      | inr (outside, rest) ↦ absurd (cc (rw unasked at rest))
    ]
