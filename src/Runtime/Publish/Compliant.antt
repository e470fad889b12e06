-- ===== src/Runtime/Publish/Compliant.antt =====
-- The unit that a transition publishes (runtime/transition.go) under rule R7 of the validator
-- (conformance/rules.go).
use mathlib.Core.Path.{subst}
use eka_core.Base.{
  String, ◌≡◌, refl, sym, ap, ◌∙◌, ◌≢◌, inl, inr, true, false, not, Option, List, [], ◌∷◌, ◌++◌,
  arith, eq_refl, ◌==◌, if◌then◌else◌, Bool-cases, eq_of_==, ==_of_eq, not-both, Member, All,
  List-cases, contains, contains_iff, Member-append,
}
use eka_core.Conformance.State.{
  domain_phase, domain_values, is_legal_transition, owned_domains, is_known_type,
}
use eka_core.Conformance.Artifact.{LogEntry, ContentFields, Artifact, state_of}
use eka_core.Conformance.Rules.Clean.{All-append, All-map, some_member, map-append}
use eka_core.Conformance.Rules.ChangeLog.{entries_for_domain, current_value, needed_domains, rule7}
use eka_core.Conformance.Rules.ChangeLog.Meaning.{
  IsGoodEntry, IsLegalEntry, IsCovered, IsLogged, rule7-eq-nil, rule7-needs,
}
use eka_core.Conformance.Rules.ChangeLog.Grow.{entries-append, IsEnding-append}
use eka_core.Exchange.{AuthorIdentity, KnowledgeUnit}
use eka_core.Exchange.Projection.{log_entry, to_artifact}
use eka_core.Exchange.Projection.Reads.{state_of-to_artifact}
use eka_core.Runtime.Publish.{transitioned}
use eka_core.Runtime.Publish.Domains.{
  published_domains, read-with_state, published-IsState, no_marker, contains-not-marker, legal-to,
}

-- The entry that a transition appends.
abbrev new_entry : String → String → String → String → AuthorIdentity → LogEntry
new_entry today domain from to by =
    log_entry (record { date = today; domain = domain; from = from; to = to; by = by })

module _ (json_object : String → Option ContentFields) (today domain from to : String)
    (by : AuthorIdentity) (u : KnowledgeUnit) (known : is_known_type u.identity.ty ≡ true)
    (state : Member domain published_domains) (owned : Member domain (owned_domains u.identity.ty))
    (held : state_of domain (to_artifact json_object u) ≡ from)
    (present_state : (from == "") ≡ false)
    (value : Member from (domain_values domain u.identity.ty))
    (legal : is_legal_transition domain u.identity.ty from to ≡ true)
    (authority : (by.name == "") ≡ false) where
  abbrev before_it : Artifact
  before_it = to_artifact json_object u

  abbrev after_it : Artifact
  after_it = to_artifact json_object (transitioned today domain from to by u)

  real_from : (from == "-") ≡ false
  real_from =
      contains-not-marker (domain_values domain u.identity.ty) from (no_marker domain _ state)
        ((contains_iff (domain_values domain u.identity.ty) from).1 value)

  valid_to : contains (domain_values domain u.identity.ty) to ≡ true
  valid_to = legal-to domain u.identity.ty from to state real_from legal

  new-IsGoodEntry : IsGoodEntry u.identity.ty (new_entry today domain from to by)
  unfolding log_entry
  new-IsGoodEntry =
      let (plain, is_state) = published-IsState domain state in
      record {
        known = rw (plain, is_state) refl;
        owned = rw plain ((contains_iff _ _).1 owned);
        good_from = rw ((contains_iff _ _).1 value) (ground arith);
        good_to = rw (valid_to, contains-not-marker _ to (no_marker domain _ state) valid_to) refl;
        good_by = authority;
      }

  new-IsLegalEntry : IsLegalEntry u.identity.ty (new_entry today domain from to by)
  unfolding log_entry
  new-IsLegalEntry = rw legal (ground arith)

  ty_before : before_it.ty ≡ u.identity.ty
  unfolding to_artifact
  ty_before = refl

  ty_after : after_it.ty ≡ u.identity.ty
  unfolding to_artifact transitioned
  ty_after = refl

  log_after : after_it.change_log ≡ (before_it.change_log ++ new_entry today domain from to by ∷ [])
  unfolding to_artifact transitioned
  log_after = map-append log_entry u.change_log _

  state_after :
      (d : String) → state_of d after_it ≡ (if domain == d then to else state_of d before_it)
  unfolding transitioned
  state_after d =
      state_of-to_artifact json_object d (transitioned today domain from to by u)
      ∙ read-with_state domain d to u.state_vector state
      ∙ ap (λ old. if domain == d then to else old) (sym (state_of-to_artifact json_object d u))

  current_other :
      (d : String) → (domain == d) ≡ false → current_value after_it d ≡ current_value before_it d
  unfolding current_value to_artifact transitioned
  current_other d other = elim (Bool-cases (d == domain_phase)) [
    | inl phase ↦ rw (phase, current_value) refl
    | inr plain ↦ rw (plain, current_value) (rw other at (state_after d))
  ]

  current_new : current_value after_it domain ≡ to
  unfolding current_value
  current_new =
      rw ((published-IsState domain state).0, current_value)
        (rw (eq_refl domain) at (state_after domain))

  current_old : current_value before_it domain ≡ from
  unfolding current_value
  current_old = rw ((published-IsState domain state).0, current_value) held

  abbrev old_entries : String → List LogEntry
  old_entries d = entries_for_domain d before_it.change_log

  entries_after :
      (d : String)
      → entries_for_domain d after_it.change_log ≡ (
          if domain == d
          then old_entries d ++ new_entry today domain from to by ∷ []
          else old_entries d)
  unfolding log_entry
  entries_after d =
      ap (entries_for_domain d) log_after
      ∙ entries-append d before_it.change_log (new_entry today domain from to by)

  -- The entries of the domain of the transition.
  covers_new : IsCovered before_it domain → IsCovered after_it domain
  unfolding to_artifact log_entry
  covers_new covered = elim covered [
    | inl empty ↦ not-both (==_of_eq from "" (sym current_old ∙ empty)) present_state
    | inr ending ↦ inr (
        rw (current_new, entries_after domain, eq_refl domain, ty_after)
          (IsEnding-append u.identity.ty (current_value before_it domain) (old_entries domain)
            (new_entry today domain from to by) ending new-IsLegalEntry))
  ]

  covers_other : (d : String) → (domain == d) ≡ false → IsCovered before_it d → IsCovered after_it d
  unfolding to_artifact
  covers_other d other covered =
      rw (current_other d other, entries_after d, other, ty_after) covered

  covers : (d : String) → IsCovered before_it d → IsCovered after_it d
  covers d covered = elim (Bool-cases (domain == d)) [
    | inl same ↦
        let e = eq_of_== domain d same in
        subst (λ x. IsCovered after_it x) e
          (covers_new (subst (λ x. IsCovered before_it x) (sym e) covered))
    | inr other ↦ covers_other d other covered
  ]

  needed_after : needed_domains after_it ≡ needed_domains before_it
  unfolding needed_domains to_artifact transitioned
  needed_after = refl

  needs_log : needed_domains before_it ≢ []
  unfolding needed_domains to_artifact
  needs_log empty =
      some_member domain (needed_domains before_it)
        ((Member-append domain (owned_domains u.identity.ty)
            (if not (u.phase == "") then domain_phase ∷ [] else [])).1
          (inl owned))
        empty

  cover_after :
      All (IsCovered before_it) (needed_domains before_it)
      → All (IsCovered after_it) (needed_domains after_it)
  cover_after cover = rw needed_after (All-map covers (needed_domains before_it) cover)

  IsLogged-after : IsLogged before_it → IsLogged after_it
  unfolding to_artifact transitioned
  IsLogged-after (good, cover) = (
    rw log_after (
        All-append (IsGoodEntry u.identity.ty) before_it.change_log
          (new_entry today domain from to by) good new-IsGoodEntry),
    cover_after cover,
  )

  -- The unit that a transition publishes passes R7 if the current unit does: for a unit of a known
  -- type that owns the domain and holds a value of it, a legal step and a named authority.
  pub transitioned-rule7 :
      rule7 (to_artifact json_object u) ≡ []
      → rule7 (to_artifact json_object (transitioned today domain from to by u)) ≡ []
  unfolding to_artifact transitioned
  transitioned-rule7 clean = elim (List-cases before_it.change_log) [
    | inl no_log ↦ absurd (needs_log (rule7-needs before_it known clean no_log))
    | inr (e, es, log) ↦
        let logged = IsLogged-after ((rule7-eq-nil before_it known e es log).0 clean) in
        (rule7-eq-nil after_it known e (es ++ new_entry today domain from to by ∷ [])
            (log_after ∙ ap (λ l. l ++ new_entry today domain from to by ∷ []) log)).1
          logged
  ]
