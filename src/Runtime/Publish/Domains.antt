-- ===== src/Runtime/Publish/Domains.antt =====
-- The state domains that a transition writes (runtime/transition.go), and their values.
use eka_core.Base.{
  String, ◌≡◌, refl, inl, inr, true, false, ◌||◌, List, [], ◌∷◌, arith, ◌==◌, if◌then◌else◌,
  Bool-cases, eq_of_==, not-both, Member, contains,
}
use eka_core.Conformance.State.{
  domain_content_state, domain_execution_state, domain_planning_state, domain_container_state,
  domain_phase, content_state_variant, domain_values, lacks, is_legal_transition,
}
use eka_core.Conformance.State.Index.{contains-lacks}
use eka_core.Conformance.Vocabulary.{state_fields}
use eka_core.Exchange.{StateVector}
use eka_core.Exchange.Projection.{state_rows}
use eka_core.Exchange.Projection.Reads.{read}
use eka_core.Runtime.Publish.{with_state}

-- The domains that a transition writes.
abbrev pub published_domains : List String
published_domains =
    domain_content_state ∷ domain_execution_state ∷ domain_planning_state ∷ domain_container_state
    ∷ []

apart : (k l d : String) → (l == k) ≡ false → (k == d) ≡ true → (l == d) ≡ false
apart k l d p h = rw (eq_of_== k d h) at p

-- The published state is the new one, and the other domains keep theirs.
pub read-with_state :
    (domain d to : String) (v : StateVector)
    → Member domain published_domains
    → read d (state_rows (with_state domain to v))
      ≡ (if domain == d then to else read d (state_rows v))
unfolding read with_state
read-with_state domain d to v m = elim m [
  | inl e ↦ rw e (ground arith)
  | inr (inl e) ↦ rw e ground (arith, apart domain_content_state domain_execution_state d refl)
  | inr (inr (inl e)) ↦ rw e ground (
    arith,
    apart domain_content_state domain_planning_state d refl,
    apart domain_execution_state domain_planning_state d refl,
  )
  | inr (inr (inr (inl e))) ↦ rw e ground (
    arith,
    apart domain_content_state domain_container_state d refl,
    apart domain_execution_state domain_container_state d refl,
    apart domain_planning_state domain_container_state d refl,
  )
  | inr (inr (inr (inr bad))) ↦ absurd bad
]

pub published-IsState :
    (domain : String)
    → Member domain published_domains
    → ((domain == domain_phase) ≡ false) × (contains state_fields domain ≡ true)
unfolding contains
published-IsState domain m = elim m [
  | inl e ↦ rw e (refl, refl)
  | inr (inl e) ↦ rw e (refl, refl)
  | inr (inr (inl e)) ↦ rw e (refl, refl)
  | inr (inr (inr (inl e))) ↦ rw e (refl, refl)
  | inr (inr (inr (inr bad))) ↦ absurd bad
]

-- No domain has the marker of a first entry among its values.
pub no_marker :
    (domain ty : String)
    → Member domain published_domains
    → contains (domain_values domain ty) "-" ≡ false
unfolding contains domain_values content_state_variant
no_marker domain ty m = elim m [
  | inl e ↦ rw e (ground arith)
  | inr (inl e) ↦ rw e refl
  | inr (inr (inl e)) ↦ rw e refl
  | inr (inr (inr (inl e))) ↦ rw e refl
  | inr (inr (inr (inr bad))) ↦ absurd bad
]

pub contains-not-marker :
    (values : List String) (v : String)
    → contains values "-" ≡ false
    → contains values v ≡ true
    → (v == "-") ≡ false
contains-not-marker values v none_there there = elim (Bool-cases (v == "-")) [
  | inl same ↦ not-both (rw (eq_of_== v "-" same) at there) none_there
  | inr other ↦ other
]

-- A legal step from a value of the set ends at one.
pub legal-to :
    (domain ty from to : String)
    → Member domain published_domains
    → (from == "-") ≡ false
    → is_legal_transition domain ty from to ≡ true
    → contains (domain_values domain ty) to ≡ true
unfolding is_legal_transition
legal-to domain ty from to m real legal =
    elim (Bool-cases (lacks (domain_values domain ty) from || lacks (domain_values domain ty) to)) [
      | inl lost ↦
          absurd
            (cc (rw (real, (published-IsState domain m).0, lost, is_legal_transition) at legal))
      | inr kept ↦ contains-lacks _ _ (ground arith)
    ]
