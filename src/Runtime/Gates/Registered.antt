-- ===== src/Runtime/Gates/Registered.antt =====
-- runtime/transition.go: what `registeredInActiveContainer` has found when it confirms.
use text.Mathlib.TextLemmas.{append-eq-nil_iff}
use text.Mathlib.TextLemmas.{append-eq-nil_iff}
use eka_core.Base.{
  String, ◌≡◌, refl, sym, ◌∙◌, ◌≢◌, ◌⊎◌, inl, inr, true, not, ◌&&◌, some, List, [], ◌∷◌, ◌==◌,
  Bool-cases, Option-cases, eq_of_==, ==_of_eq, &&_elim, not-both, Member, lookup, is_some,
  contains, Result-cases, ok, ◌⊕◌, contains_iff, Member-filter, mem-any, mem-map,
}
use eka_core.Exchange.{Relationship, KnowledgeUnit}
use eka_core.Conformance.State.{is_work_item_type}
use eka_core.Conformance.Reference.{Reference, line_form, reference_line}
use eka_core.Store.Rows.{Store}
use eka_core.Store.Query.{units, units_by_project}
use eka_core.Runtime.World.{World}
use eka_core.Runtime.Units.{by_line, of_type, target_of}
use eka_core.Runtime.Gates.{
  membership_step, membership_from, ticket_membership, active_lines, registers,
  registered_in_active_container,
}

-- A relationship `derives-from` of the unit reads as the reference.
abbrev pub DerivesFrom : KnowledgeUnit → Reference → Type 0
DerivesFrom u r =
    (rel : Relationship) × Member rel u.relationships
    × (rel.ty ≡ "derives-from")
    × (target_of u rel ≡ some r)

-- A ticket among the units derives from the work item and from a container, of which some instance,
-- not always the highest, is active.
pub record IsRegistered (units : List KnowledgeUnit) (target : Reference) : Type 0 where
  pub ticket : KnowledgeUnit
  pub ticket_listed : Member ticket units
  pub ticket_type : ticket.identity.ty ≡ "tkt"
  pub item : Reference
  pub item_derived : DerivesFrom ticket item
  pub item_line : reference_line item ≡ reference_line target
  pub container : Reference
  pub container_derived : DerivesFrom ticket container
  pub container_type : container.ty ≡ "ctr"
  pub instance_unit : KnowledgeUnit
  pub instance_listed : Member instance_unit units
  pub instance_type : instance_unit.identity.ty ≡ "ctr"
  pub instance_active : instance_unit.state_vector.container_state ≡ "active"
  pub instance_line :
      reference_line container
      ≡ instance_unit.identity.namespace ⊕ ("/ctr:" ⊕ instance_unit.identity.id)

ContainerOf : KnowledgeUnit → String → Type 0
ContainerOf u line = (r : Reference) × DerivesFrom u r × (r.ty ≡ "ctr") × (reference_line r ≡ line)

ItemOf : KnowledgeUnit → String → Type 0
ItemOf u line = (r : Reference) × DerivesFrom u r × (reference_line r ≡ line)

-- What both lines of a membership come from.
Read : KnowledgeUnit → String × String → Type 0
Read u (container, item) =
    ((container ≡ "") ⊎ ContainerOf u container) × ((item ≡ "") ⊎ ItemOf u item)

module _ (lines : List (String × KnowledgeUnit)) (u : KnowledgeUnit) where
  Read-membership_step :
      (acc : String × String) (rel : Relationship)
      → Member rel u.relationships
      → Read u acc
      → Read u (membership_step lines u acc rel)
  unfolding Read ContainerOf ItemOf membership_step
  Read-membership_step (container, item) rel there (c, i) =
      elim (Bool-cases (rel.ty == "derives-from")) [
        | inr other ↦ rw other (c, i)
        | inl derives ↦ elim (Option-cases (target_of u rel)) [
          | inl unread ↦ rw (derives, unread, membership_step) (c, i)
          | inr (r, read) ↦
              let derived : DerivesFrom u r = (rel, there, eq_of_== rel.ty _ derives, read) in
              elim (Bool-cases (is_some (lookup (reference_line r) lines))) [
                | inr unknown ↦ rw (derives, read, unknown, membership_step) (c, i)
                | inl known ↦ elim (Bool-cases (container == "" && r.ty == "ctr")) [
                  | inl first ↦
                      rw (derives, read, known, first, membership_step)
                        (
                          inr (
                            r,
                            derived,
                            eq_of_== r.ty _ (&&_elim (container == "") _ first).1,
                            refl,
                          ),
                          i,
                        )
                  | inr not_first ↦ elim (Bool-cases (item == "" && is_work_item_type r.ty)) [
                    | inl works ↦
                        rw (derives, read, known, not_first, works, membership_step)
                          (c, inr (r, derived, refl))
                    | inr neither ↦
                        rw (derives, read, known, not_first, neither, membership_step) (c, i)
                  ]
                ]
              ]
        ]
      ]

  Read-membership_from :
      (rels : List Relationship) (acc : String × String)
      → ((rel : Relationship) → Member rel rels → Member rel u.relationships)
      → Read u acc
      → Read u (membership_from lines u acc rels)
  unfolding membership_from
  Read-membership_from [] acc all r = r
  Read-membership_from (rel ∷ rels) acc all r =
      Read-membership_from rels (membership_step lines u acc rel) (λ x m. all x (inr m))
        (Read-membership_step acc rel (all rel (inl refl)) r)

  Read-ticket_membership : Read u (ticket_membership lines u)
  unfolding ticket_membership Read
  Read-ticket_membership =
      Read-membership_from u.relationships ("", "") (λ x m. m) (inl refl, inl refl)

line-ne-blank : (r : Reference) → reference_line r ≢ ""
unfolding reference_line line_form
line-ne-blank r e =
    let slash = (append-eq-nil_iff.0 (append-eq-nil_iff.0 e).1).0 in
    not-both (==_of_eq "/" "" slash) refl

active_line :
    (units : List KnowledgeUnit) (line : String)
    → contains (active_lines units) line ≡ true
    → (a : KnowledgeUnit) × Member a units
      × (a.identity.ty ≡ "ctr")
      × (a.state_vector.container_state ≡ "active")
      × (line ≡ a.identity.namespace ⊕ ("/ctr:" ⊕ a.identity.id))
unfolding active_lines of_type
active_line units line listed =
    let (a, m, e) = mem-map _ _ line ((contains_iff (active_lines units) line).0 listed) in
    let (of_ctr, active) = (Member-filter _ a _).0 m in
    let (there, is_ctr) = (Member-filter _ a units).0 of_ctr in
    (a, there, eq_of_== _ _ is_ctr, eq_of_== _ _ active, e)

registers-IsRegistered :
    (units : List KnowledgeUnit) (target : Reference) (ticket : KnowledgeUnit)
    → Member ticket (of_type "tkt" units)
    → registers units (reference_line target) ticket ≡ true
    → IsRegistered units target
unfolding registers of_type Read ContainerOf ItemOf
registers-IsRegistered units target ticket listed counted =
    let (there, is_ticket) = (Member-filter _ ticket units).0 listed in
    let (c, i) = Read-ticket_membership (by_line units) ticket in
    let (container, item) = ticket_membership (by_line units) ticket in
    let (named, rest) = &&_elim (not (container == "")) _ counted in
    let (active, same) = &&_elim (contains (active_lines units) container) _ rest in
    elim c [
      | inl blank ↦ absurd (cc (rw blank at named))
      | inr (cr, c_derived, c_type, c_line) ↦ elim i [
        | inl none_named ↦
            let blank = sym (eq_of_== item (reference_line target) same) ∙ none_named in
            absurd (line-ne-blank target blank)
        | inr (ir, i_derived, i_line) ↦
            let (a, a_listed, a_type, a_active, a_line) = active_line units container active in
            record {
              ticket = ticket;
              ticket_listed = there;
              ticket_type = eq_of_== _ _ is_ticket;
              item = ir;
              item_derived = i_derived;
              item_line = i_line ∙ eq_of_== item (reference_line target) same;
              container = cr;
              container_derived = c_derived;
              container_type = c_type;
              instance_unit = a;
              instance_listed = a_listed;
              instance_type = a_type;
              instance_active = a_active;
              instance_line = c_line ∙ a_line;
            }
      ]
    ]

pub confirmed-IsRegistered :
    (w : World) (s : Store) (project : String) (target : Reference)
    → registered_in_active_container w s project target ≡ true
    → (us : List KnowledgeUnit) × (units_by_project w.codec s project ≡ ok us)
      × IsRegistered us target
unfolding registered_in_active_container
confirmed-IsRegistered w s project target confirmed =
    elim (Result-cases (units_by_project w.codec s project)) [
      | inr (e, failed) ↦ absurd (cc (rw (failed, registered_in_active_container) at confirmed))
      | inl (us, read) ↦
          let (ticket, listed, counted) =
            mem-any (registers us (reference_line target)) (of_type "tkt" us)
              (rw (read, registered_in_active_container) at confirmed) in
          (us, read, registers-IsRegistered us target ticket listed counted)
    ]
