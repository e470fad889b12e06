-- ===== src/Runtime/Latest.antt =====
-- runtime/transition.go: the scan for the highest instance of a line.
use eka_core.Base.{
  ◌≤◌, String, ◌≡◌, refl, sym, ap, ◌∙◌, ◌⊎◌, inl, inr, some, List, [], ◌∷◌, arith, eq_iff, ltb,
  ◌==◌, if◌then◌else◌, Bool-cases, eq_of_==, filter, Member, lookup, insert,
}
use eka_core.Exchange.{KnowledgeUnit}
use eka_core.Runtime.Units.{version_of, newer, latest_from, latest, line_key, by_line_from, by_line}

same_unit : (a b : KnowledgeUnit) → some a ≡ some b → a ≡ b
same_unit a b e = cc

-- The current unit of a line is one of its units.
mem-latest_from :
    (cur : KnowledgeUnit) (us : List KnowledgeUnit) (u : KnowledgeUnit)
    → latest_from (some cur) us ≡ some u
    → (u ≡ cur) ⊎ Member u us
unfolding latest_from newer
mem-latest_from cur [] u e = inl (sym (same_unit cur u e))
mem-latest_from cur (x ∷ us) u e = elim (Bool-cases (ltb (version_of cur) (version_of x))) [
  | inl later ↦ inr (mem-latest_from x us u (rw (later, newer) at e))
  | inr not_later ↦ elim (mem-latest_from cur us u (rw (not_later, newer) at e)) [
    | inl same ↦ inl same
    | inr m ↦ inr (inr m)
  ]
]

pub mem-latest : (us : List KnowledgeUnit) (u : KnowledgeUnit) → latest us ≡ some u → Member u us
unfolding latest latest_from newer
mem-latest [] u e = absurd (cc)
mem-latest (x ∷ us) u e = mem-latest_from x us u e

latest_from-le :
    (cur : KnowledgeUnit) (us : List KnowledgeUnit) (u : KnowledgeUnit)
    → latest_from (some cur) us ≡ some u
    → (version_of cur ≤ version_of u)
      × ((x : KnowledgeUnit) → Member x us → version_of x ≤ version_of u)
unfolding latest_from newer
latest_from-le cur [] u e = (omega (arith, ap version_of (same_unit cur u e)), λ x m. absurd m)
latest_from-le cur (x ∷ us) u e = elim (Bool-cases (ltb (version_of cur) (version_of x))) [
  | inl later ↦
      let (first, rest) = latest_from-le x us u (rw (later, newer) at e) in
      (ground arith, λ y m. elim m [ inl same ↦ rw same first | inr there ↦ rest y there ])
  | inr not_later ↦
      let (first, rest) = latest_from-le cur us u (rw (not_later, newer) at e) in
      (first, λ y m. elim m [ inl same ↦ rw same (ground arith) | inr there ↦ rest y there ])
]

-- The current unit of a line is one of its instances, and no instance has a higher version.
pub latest_is_highest :
    (us : List KnowledgeUnit) (u : KnowledgeUnit)
    → latest us ≡ some u
    → Member u us × ((x : KnowledgeUnit) → Member x us → version_of x ≤ version_of u)
unfolding latest latest_from newer
latest_is_highest [] u e = absurd (cc)
latest_is_highest (x ∷ us) u e =
    let (first, rest) = latest_from-le x us u e in
    (mem-latest (x ∷ us) u e, λ y m. elim m [ inl same ↦ rw same first | inr there ↦ rest y there ])

lookup-insert :
    (k : String) (u : KnowledgeUnit) (m : List (String × KnowledgeUnit)) (q : String)
    → lookup q (insert k u m) ≡ (if k == q then some u else lookup q m)
unfolding lookup insert
lookup-insert k u [] q = refl
lookup-insert k u (row ∷ m) q =
    ground (arith, eq_iff row.0 k, eq_iff row.0 q, eq_iff k q, lookup-insert k u m q)

lookup-by_line_from :
    (k : String) (us : List KnowledgeUnit) (m : List (String × KnowledgeUnit))
    → lookup k (by_line_from m us)
      ≡ latest_from (lookup k m) (filter (λ (u : KnowledgeUnit). line_key u == k) us)
unfolding by_line_from latest_from filter
lookup-by_line_from k [] m = refl
lookup-by_line_from k (u ∷ us) m = elim (Bool-cases (line_key u == k)) [
  | inl same ↦
      let e = eq_of_== (line_key u) k same in
      let found =
        lookup-insert (line_key u) (newer (lookup (line_key u) m) u) m k
        ∙ rw same (ap (λ (x : String). some (newer (lookup x m) u)) e) in
      let rest = filter (λ (x : KnowledgeUnit). line_key x == k) us in
      rw same (
        lookup-by_line_from k us (insert (line_key u) (newer (lookup (line_key u) m) u) m)
        ∙ ap (λ o. latest_from o rest) found)
  | inr other ↦
      let found =
        lookup-insert (line_key u) (newer (lookup (line_key u) m) u) m k ∙ rw other refl in
      let rest = filter (λ (x : KnowledgeUnit). line_key x == k) us in
      rw other (
        lookup-by_line_from k us (insert (line_key u) (newer (lookup (line_key u) m) u) m)
        ∙ ap (λ o. latest_from o rest) found)
]

-- The row that `by_line` has for a line is the one that the scan over the units of the line chooses.
pub lookup-by_line :
    (k : String) (us : List KnowledgeUnit)
    → lookup k (by_line us) ≡ latest (filter (λ (u : KnowledgeUnit). line_key u == k) us)
unfolding by_line latest lookup
lookup-by_line k us = lookup-by_line_from k us []
