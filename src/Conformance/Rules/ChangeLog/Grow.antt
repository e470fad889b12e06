-- ===== src/Conformance/Rules/ChangeLog/Grow.antt =====
-- A change log with one more entry, under R7.
use eka_core.Base.{String, ◌≡◌, refl, ap, List, [], ◌∷◌, ◌++◌, arith, ◌==◌, if◌then◌else◌, filter}
use eka_core.Conformance.Artifact.{LogEntry}
use eka_core.Conformance.Rules.Clean.{All-append}
use eka_core.Conformance.Rules.ChangeLog.{entries_for_domain, last_entry}
use eka_core.Conformance.Rules.ChangeLog.Meaning.{IsLegalEntry, IsEnding}

-- The entries of a log that has one more.
pub entries-append :
    (d : String) (log : List LogEntry) (e : LogEntry)
    → entries_for_domain d (log ++ e ∷ [])
      ≡ (if e.domain == d then entries_for_domain d log ++ e ∷ [] else entries_for_domain d log)
unfolding entries_for_domain filter
entries-append d [] e = ground arith
entries-append d (x ∷ log) e = ground (arith, entries-append d log e)

last-append :
    (e : LogEntry) (es : List LogEntry) (new : LogEntry) → last_entry e (es ++ new ∷ []) ≡ new
unfolding last_entry
last-append e [] new = refl
last-append e (x ∷ es) new = last-append x es new

-- One more legal entry moves the end to its value.
pub IsEnding-append :
    (ty current : String) (es : List LogEntry) (new : LogEntry)
    → IsEnding ty current es
    → IsLegalEntry ty new
    → IsEnding ty new.to (es ++ new ∷ [])
IsEnding-append ty current [] new bad legal = absurd bad
IsEnding-append ty current (e ∷ es) new (ends, (here, later)) legal = (
  ap (λ (x : LogEntry). x.to) (last-append e es new),
  (here, All-append (IsLegalEntry ty) es new later legal),
)
