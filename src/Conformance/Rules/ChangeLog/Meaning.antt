-- ===== src/Conformance/Rules/ChangeLog/Meaning.antt =====
-- R7 against its meaning: every entry is well formed, and the entries of each domain that needs one
-- are legal steps that end at its current value.
use eka_core.Base.{
  ℕ, suc, String, ◌≡◌, refl, sym, ◌∙◌, ◌↔◌, ◌⊎◌, inl, inr, Bool, true, false, not, ◌&&◌, ◌||◌, List,
  [], ◌∷◌, ◌++◌, ◌==◌, if◌then◌else◌, Bool-cases, eq_of_==, ==_of_eq, not-both, All, List-cases,
  flat_map, contains,
}
use eka_core.Conformance.State.{
  domain_phase, domain_values, is_legal_transition, owned_domains, is_known_type, is_versioned_type,
}
use eka_core.Conformance.Vocabulary.{state_fields}
use eka_core.Conformance.Artifact.{LogEntry, Artifact}
use eka_core.Conformance.Engine.{
  finding_if, error, log_phase_not_allowed, log_not_owned, log_bad_from, log_bad_to,
  log_no_authority, log_last_differs, log_illegal,
}
use eka_core.Conformance.Rules.Clean.{
  append-eq-nil, flat_map-eq-nil, finding_if-eq-nil, All-iff, not-eq-false,
}
use eka_core.Conformance.Rules.ChangeLog.{
  ownership_findings, entry_value_findings, entry_findings, entries_findings, entries_for_domain,
  last_entry, entry_number, illegal_findings, current_value, domain_findings, needed_domains,
  no_log_findings, log_findings, rule7,
}

abbrev is_owned_by : String → LogEntry → Bool
is_owned_by ty e =
    if e.domain == domain_phase then is_versioned_type ty else contains (owned_domains ty) e.domain

-- An entry that the type admits, with values of its domain and an authority.
pub record IsGoodEntry (ty : String) (e : LogEntry) : Type 0 where
  pub known : (e.domain == domain_phase || contains state_fields e.domain) ≡ true
  pub owned : is_owned_by ty e ≡ true
  pub good_from : (not (e.from == "-") && not (contains (domain_values e.domain ty) e.from)) ≡ false
  pub good_to : (e.to == "-" || not (contains (domain_values e.domain ty) e.to)) ≡ false
  pub good_by : (e.by == "") ≡ false

abbrev pub IsLegalEntry : String → LogEntry → Type 0
IsLegalEntry ty e =
    (not (e.from == "-") && not (is_legal_transition e.domain ty e.from e.to)) ≡ false

-- The entries of a domain: legal, and the last one at the current value.
abbrev pub IsEnding : String → String → List LogEntry → Type 0
IsEnding ty current [] = ⊥
IsEnding ty current (e ∷ es) = ((last_entry e es).to ≡ current) × All (IsLegalEntry ty) (e ∷ es)

abbrev pub IsCovered : Artifact → String → Type 0
IsCovered a domain =
    (current_value a domain ≡ "")
    ⊎ IsEnding a.ty (current_value a domain) (entries_for_domain domain a.change_log)

ownership-eq-nil :
    (a : Artifact) (i : ℕ) (e : LogEntry)
    → ownership_findings a i e ≡ [] ↔ (is_owned_by a.ty e ≡ true)
unfolding ownership_findings
ownership-eq-nil a i e = elim (Bool-cases (e.domain == domain_phase)) [
  | inl phase ↦
      let clean =
        finding_if-eq-nil (not (is_versioned_type a.ty)) a "R7" error
          (log_phase_not_allowed i a.ty) in
      rw (phase, ownership_findings)
        (λ c. (not-eq-false _).0 (clean.0 c), λ t. clean.1 ((not-eq-false _).1 t))
  | inr other ↦
      let clean =
        finding_if-eq-nil (not (contains (owned_domains a.ty) e.domain)) a "R7" error
          (log_not_owned i e.domain) in
      rw (other, ownership_findings)
        (λ c. (not-eq-false _).0 (clean.0 c), λ t. clean.1 ((not-eq-false _).1 t))
]

pub entry_findings-eq-nil :
    (a : Artifact) (i : ℕ) (e : LogEntry) → entry_findings a i e ≡ [] ↔ IsGoodEntry a.ty e
unfolding entry_findings entry_value_findings
entry_findings-eq-nil a i e =
    let values = domain_values e.domain a.ty in
    let from_clean =
      finding_if-eq-nil (not (e.from == "-") && not (contains values e.from)) a "R7" error
        (log_bad_from i e.from e.domain) in
    let to_clean =
      finding_if-eq-nil (e.to == "-" || not (contains values e.to)) a "R7" error
        (log_bad_to i e.to e.domain) in
    let by_clean = finding_if-eq-nil (e.by == "") a "R7" error (log_no_authority i) in
    elim (Bool-cases (e.domain == domain_phase || contains state_fields e.domain)) [
      | inr unknown ↦
          rw (unknown, entry_findings) (λ c. absurd (cc), λ good. not-both good.known unknown)
      | inl known ↦
          rw (known, entry_findings)
            (
              λ c.
                  let (o, rest) =
                    (append-eq-nil (ownership_findings a i e) (entry_value_findings a i e)).0 c in
                  let (f, rest') = (append-eq-nil _ _).0 rest in
                  let (t, b) = (append-eq-nil _ _).0 rest' in
                  record {
                    known = known;
                    owned = (ownership-eq-nil a i e).0 o;
                    good_from = from_clean.0 f;
                    good_to = to_clean.0 t;
                    good_by = by_clean.0 b;
                  },
              λ good. (append-eq-nil (ownership_findings a i e) (entry_value_findings a i e)).1 (
                (ownership-eq-nil a i e).1 good.owned,
                (append-eq-nil _ _).1 (
                  from_clean.1 good.good_from,
                  (append-eq-nil _ _).1 (to_clean.1 good.good_to, by_clean.1 good.good_by),
                ),
              ),
            )
    ]

pub entries_findings-eq-nil :
    (a : Artifact) (i : ℕ) (es : List LogEntry)
    → entries_findings a i es ≡ [] ↔ All (IsGoodEntry a.ty) es
unfolding entries_findings
entries_findings-eq-nil a i [] = (λ c. tt, λ u. refl)
entries_findings-eq-nil a i (e ∷ es) =
    let both = append-eq-nil (entry_findings a i e) (entries_findings a (suc i) es) in
    let here = entry_findings-eq-nil a i e in
    let later = entries_findings-eq-nil a (suc i) es in
    (λ c. (here.0 (both.0 c).0, later.0 (both.0 c).1), λ (g, gs). both.1 (here.1 g, later.1 gs))

illegal-eq-nil :
    (a : Artifact) (domain : String) (e : LogEntry)
    → illegal_findings a domain e ≡ [] ↔ IsLegalEntry a.ty e
unfolding illegal_findings
illegal-eq-nil a domain e =
    finding_if-eq-nil (not (e.from == "-") && not (is_legal_transition e.domain a.ty e.from e.to)) a
      "R7" error (log_illegal (entry_number e a.change_log) domain e.from e.to)

-- The findings on the entries of a domain that has a value.
covered_entries :
    (a : Artifact) (domain : String)
    → (current_value a domain == "") ≡ false
    → (e : LogEntry) (es : List LogEntry)
    → (finding_if
            (not ((last_entry e es).to == current_value a domain))
            a
            "R7"
            error
            (log_last_differs domain (last_entry e es).to (current_value a domain))
          ++ flat_map (illegal_findings a domain) (e ∷ es))
        ≡ []
      ↔ ((current_value a domain ≡ "") ⊎ IsEnding a.ty (current_value a domain) (e ∷ es))
covered_entries a domain full e es =
    let current = current_value a domain in
    let last =
      finding_if-eq-nil (not ((last_entry e es).to == current)) a "R7" error
        (log_last_differs domain (last_entry e es).to current) in
    let both = append-eq-nil _ (flat_map (illegal_findings a domain) (e ∷ es)) in
    let rows = flat_map-eq-nil (illegal_findings a domain) (e ∷ es) in
    let legal = All-iff (illegal-eq-nil a domain) (e ∷ es) in
    (
      λ c.
          let (ends, steps) = both.0 c in
          inr (eq_of_== _ _ ((not-eq-false _).0 (last.0 ends)), legal.0 (rows.0 steps)),
      λ covered. elim covered [
        | inl empty ↦ not-both (==_of_eq current "" empty) full
        | inr (ends, steps) ↦
            both.1 (last.1 ((not-eq-false _).1 (==_of_eq _ _ ends)), rows.1 (legal.1 steps))
      ],
    )

pub domain_findings-eq-nil :
    (a : Artifact) (domain : String) → domain_findings a domain ≡ [] ↔ IsCovered a domain
unfolding domain_findings
domain_findings-eq-nil a domain = elim (Bool-cases (current_value a domain == "")) [
  | inl empty ↦ rw (empty, domain_findings) (λ c. inl (eq_of_== _ _ empty), λ covered. refl)
  | inr full ↦ elim (List-cases (entries_for_domain domain a.change_log)) [
    | inl nothing ↦
        rw (full, nothing, domain_findings)
          (
            λ c. absurd (cc),
            λ covered. elim covered [
              | inl e ↦ not-both (==_of_eq (current_value a domain) "" e) full
              | inr impossible ↦ absurd impossible
            ],
          )
    | inr (e, es, some_entries) ↦
        rw (full, some_entries, domain_findings) (covered_entries a domain full e es)
  ]
]

-- The two parts of R7 over a log that is not empty.
module _ (a : Artifact) where
  log_body :
      (log : List LogEntry) (e : LogEntry) (es : List LogEntry)
      → log ≡ e ∷ es
      → log_findings a log
        ≡ entries_findings a 1 log ++ flat_map (domain_findings a) (needed_domains a)
  unfolding log_findings
  log_body log e es eq = rw (eq, log_findings) refl

-- What R7 checks of an artifact that has a log.
abbrev pub IsLogged : Artifact → Type 0
IsLogged a = All (IsGoodEntry a.ty) a.change_log × All (IsCovered a) (needed_domains a)

module _ (a : Artifact) (known : is_known_type a.ty ≡ true) where
  rule7-body :
      (e : LogEntry) (es : List LogEntry)
      → a.change_log ≡ e ∷ es
      → rule7 a
        ≡ entries_findings a 1 a.change_log ++ flat_map (domain_findings a) (needed_domains a)
  unfolding rule7 log_findings
  rule7-body e es log = rw (known, rule7) refl ∙ log_body a a.change_log e es log

  pub rule7-eq-nil :
      (e : LogEntry) (es : List LogEntry) → a.change_log ≡ e ∷ es → rule7 a ≡ [] ↔ IsLogged a
  rule7-eq-nil e es log =
      let both =
        append-eq-nil (entries_findings a 1 a.change_log)
          (flat_map (domain_findings a) (needed_domains a)) in
      let entries = entries_findings-eq-nil a 1 a.change_log in
      let rows = flat_map-eq-nil (domain_findings a) (needed_domains a) in
      let covered = All-iff (domain_findings-eq-nil a) (needed_domains a) in
      (
        λ c.
            let (es_clean, ds_clean) = both.0 (sym (rule7-body e es log) ∙ c) in
            (entries.0 es_clean, covered.0 (rows.0 ds_clean)),
        λ (good, cover). rule7-body e es log ∙ both.1 (entries.1 good, rows.1 (covered.1 cover)),
      )

  -- Without a log, a clean artifact needs none.
  pub rule7-needs : rule7 a ≡ [] → a.change_log ≡ [] → needed_domains a ≡ []
  unfolding rule7 log_findings no_log_findings
  rule7-needs clean log = elim (List-cases (needed_domains a)) [
    | inl none_needed ↦ none_needed
    | inr (d, ds, some_needed) ↦
        absurd (cc (rw (known, log, some_needed, rule7, log_findings) at clean))
  ]
