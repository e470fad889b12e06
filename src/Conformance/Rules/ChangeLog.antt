-- ===== src/Conformance/Rules/ChangeLog.antt =====
-- conformance/rules.go: R7, the change log.
pub mod Grow
pub mod Meaning
use eka_core.Base.{
  ℕ, suc, String, Bool, not, ◌&&◌, ◌||◌, List, [], ◌∷◌, ◌++◌, eqb, ◌==◌, if◌then◌else◌, filter,
  flat_map, contains,
}
use eka_core.Conformance.State.{
  domain_phase, domain_values, is_legal_transition, owned_domains, is_known_type, is_versioned_type,
}
use eka_core.Conformance.Vocabulary.{state_fields}
use eka_core.Conformance.Artifact.{LogEntry, Artifact, state_of}
use eka_core.Conformance.Engine.{
  Finding, finding, finding_if, error, log_missing, log_phase_not_allowed, log_not_owned,
  log_unknown_domain, log_bad_from, log_bad_to, log_no_authority, log_no_entry, log_last_differs,
  log_illegal,
}

-- `i` is the number of the entry, from 1.
unfoldable pub ownership_findings : Artifact → ℕ → LogEntry → List Finding
unfolding contains is_versioned_type owned_domains finding_if
ownership_findings a i entry =
    if entry.domain == domain_phase
    then finding_if (not (is_versioned_type a.ty)) a "R7" error (log_phase_not_allowed i a.ty)
    else finding_if (not (contains (owned_domains a.ty) entry.domain)) a "R7" error
        (log_not_owned i entry.domain)

-- The checks of the values and of the authority.
unfoldable pub entry_value_findings : Artifact → ℕ → LogEntry → List Finding
unfolding contains domain_values finding_if
entry_value_findings a i entry =
    let values = domain_values entry.domain a.ty in
    finding_if (not (entry.from == "-") && not (contains values entry.from)) a "R7" error
      (log_bad_from i entry.from entry.domain)
    ++ (finding_if (entry.to == "-" || not (contains values entry.to)) a "R7" error
          (log_bad_to i entry.to entry.domain)
        ++ finding_if (entry.by == "") a "R7" error (log_no_authority i))

unfoldable pub entry_findings : Artifact → ℕ → LogEntry → List Finding
unfolding contains ownership_findings entry_value_findings finding
entry_findings a i entry =
    if entry.domain == domain_phase || contains state_fields entry.domain
    then ownership_findings a i entry ++ entry_value_findings a i entry
    else finding a "R7" error (log_unknown_domain i entry.domain) ∷ []

unfoldable pub entries_findings : Artifact → ℕ → List LogEntry → List Finding
unfolding entry_findings
entries_findings a i [] = []
entries_findings a i (entry ∷ entries) =
    entry_findings a i entry ++ entries_findings a (suc i) entries

unfoldable pub entries_for_domain : String → List LogEntry → List LogEntry
unfolding filter
entries_for_domain domain log = filter (λ entry. entry.domain == domain) log

-- The last of an entry and those after it.
unfoldable pub last_entry : LogEntry → List LogEntry → LogEntry
last_entry entry [] = entry
last_entry entry (next ∷ entries) = last_entry next entries

same_entry : LogEntry → LogEntry → Bool
same_entry a b =
    a.date == b.date
    && (a.domain == b.domain && (a.from == b.from && (a.to == b.to && a.by == b.by)))

-- `indexOfEntry` plus 1; 0 is an entry that the log does not hold.
unfoldable pub entry_number : LogEntry → List LogEntry → ℕ
unfolding same_entry
entry_number target [] = 0
entry_number target (entry ∷ entries) =
    let later = entry_number target entries in
    if same_entry entry target then 1 else if eqb later 0 then 0 else suc later

unfoldable pub illegal_findings : Artifact → String → LogEntry → List Finding
unfolding is_legal_transition entry_number finding_if
illegal_findings a domain entry =
    finding_if
      (not (entry.from == "-") && not (is_legal_transition entry.domain a.ty entry.from entry.to)) a
      "R7" error (log_illegal (entry_number entry a.change_log) domain entry.from entry.to)

unfoldable pub current_value : Artifact → String → String
unfolding state_of
current_value a domain = if domain == domain_phase then a.phase else state_of domain a

unfoldable pub domain_findings : Artifact → String → List Finding
unfolding entries_for_domain last_entry illegal_findings current_value flat_map finding finding_if
domain_findings a domain =
    let current = current_value a domain in
    if current == "" then [] else elim (entries_for_domain domain a.change_log) [
      | [] ↦ finding a "R7" error (log_no_entry domain current) ∷ []
      | entry ∷ entries ↦
          let last = last_entry entry entries in
          finding_if (not (last.to == current)) a "R7" error
            (log_last_differs domain last.to current)
          ++ flat_map (illegal_findings a domain) (entry ∷ entries)
    ]

-- The domains that need an entry.
unfoldable pub needed_domains : Artifact → List String
unfolding owned_domains
needed_domains a = owned_domains a.ty ++ (if a.has_phase then domain_phase ∷ [] else [])

unfoldable pub no_log_findings : Artifact → List String → List Finding
unfolding finding
no_log_findings a [] = []
no_log_findings a (domain ∷ domains) = finding a "R7" error (log_missing (domain ∷ domains)) ∷ []

unfoldable pub log_findings : Artifact → List LogEntry → List Finding
unfolding no_log_findings entries_findings needed_domains flat_map domain_findings
log_findings a [] = no_log_findings a (needed_domains a)
log_findings a (entry ∷ entries) =
    entries_findings a 1 (entry ∷ entries) ++ flat_map (domain_findings a) (needed_domains a)

unfoldable pub rule7 : Artifact → List Finding
unfolding is_known_type log_findings
rule7 a = if is_known_type a.ty then log_findings a a.change_log else []
