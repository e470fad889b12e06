-- ===== src/Runtime/Units.antt =====
-- Lines, current instances, and the relationships that resolve to a line.
use eka_core.Base.{
  ℕ, String, Bool, ◌&&◌, Option, none, some, List, [], ◌∷◌, ltb, ◌==◌, if◌then◌else◌, filter,
  lookup, insert, ok, err,
}
use eka_core.Conformance.Reference.{Reference, parse_reference}
use eka_core.Exchange.{Relationship, KnowledgeUnit, line_of}

abbrev pub version_of : KnowledgeUnit → ℕ
version_of u = u.identity.instance_version

-- `if current == nil || u.version > current.version { current = u }`
unfoldable pub newer : Option KnowledgeUnit → KnowledgeUnit → KnowledgeUnit
newer none u = u
newer (some cur) u = if ltb (version_of cur) (version_of u) then u else cur

unfoldable pub latest_from : Option KnowledgeUnit → List KnowledgeUnit → Option KnowledgeUnit
latest_from current [] = current
latest_from current (u ∷ us) = latest_from (some (newer current u)) us

-- The highest instance; the first of two that are equal.
unfoldable pub latest : List KnowledgeUnit → Option KnowledgeUnit
unfolding latest_from
latest us = latest_from none us

abbrev pub line_key : KnowledgeUnit → String
line_key u = line_of u.identity

-- The map from each line to its highest instance.
unfoldable pub by_line_from :
    List (String × KnowledgeUnit) → List KnowledgeUnit → List (String × KnowledgeUnit)
by_line_from m [] = m
by_line_from m (u ∷ us) = by_line_from (insert (line_key u) (newer (lookup (line_key u) m) u) m) us

unfoldable pub by_line : List KnowledgeUnit → List (String × KnowledgeUnit)
unfolding by_line_from
by_line us = by_line_from [] us

abbrev is_type : String → KnowledgeUnit → Bool
is_type ty u = u.identity.ty == ty

unfoldable pub of_type : String → List KnowledgeUnit → List KnowledgeUnit
of_type ty us = filter (is_type ty) us

-- A relationship's target, read from the unit that holds it; `none` if it does not parse.
unfoldable pub target_of : KnowledgeUnit → Relationship → Option Reference
target_of u rel = elim (parse_reference rel.target u.identity.namespace u.identity.ty) [
  | ok r ↦ some r
  | err e ↦ none
]

unfoldable pub same_line : Reference → Reference → Bool
same_line a b = a.namespace == b.namespace && (a.ty == b.ty && a.id == b.id)
