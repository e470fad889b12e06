-- ===== src/Conformance/Domain.antt =====
-- conformance/domain.go: the five Engineering Domains and their strata.
use eka_core.Base.{ℕ, String, Bool, Option, List, [], ◌∷◌, ltb, ◌==◌, any, filter, lookup}

pub data Domain : Type 0 where
  discovery architecture planning execution operations : Domain

unfoldable pub domain_name : Domain → String
domain_name discovery = "Discovery"
domain_name architecture = "Architecture"
domain_name planning = "Planning"
domain_name execution = "Execution"
domain_name operations = "Operations"

-- In stratum order.
abbrev pub domains : List Domain
domains = discovery ∷ architecture ∷ planning ∷ execution ∷ operations ∷ []

unfoldable pub token_domain : List (String × Domain)
token_domain =
    ("vis", discovery)
    ∷ ("str", discovery)
    ∷ ("req", discovery)
    ∷ ("fnd", discovery)
    ∷ ("arc", architecture)
    ∷ ("adr", architecture)
    ∷ ("dec", architecture)
    ∷ ("spec", architecture)
    ∷ ("std", architecture)
    ∷ ("gls", architecture)
    ∷ ("scp", planning)
    ∷ ("epc", planning)
    ∷ ("plan", planning)
    ∷ ("trc", planning)
    ∷ ("rvw", execution)
    ∷ ("ctr", execution)
    ∷ ("tkt", execution)
    ∷ ("sto", execution)
    ∷ ("ts", execution)
    ∷ ("bug", execution)
    ∷ ("td", execution)
    ∷ ("ch", execution)
    ∷ ("spk", execution)
    ∷ ("ses", execution)
    ∷ ("cmt", execution)
    ∷ ("mbr", execution)
    ∷ ("run", operations)
    ∷ ("rel", operations)
    ∷ ("shr", operations)
    ∷ []

unfoldable pub dimension_domain : List (String × Domain)
dimension_domain =
    ("intent", discovery)
    ∷ ("requirements", discovery)
    ∷ ("research", discovery)
    ∷ ("architecture", architecture)
    ∷ ("decisions", architecture)
    ∷ ("specifications", architecture)
    ∷ ("standards", architecture)
    ∷ ("vocabulary", architecture)
    ∷ ("planning", planning)
    ∷ ("quality", execution)
    ∷ ("operations", operations)
    ∷ ("records", operations)
    ∷ []

unfoldable pub domain_for_token : String → Option Domain
unfolding token_domain lookup
domain_for_token token = lookup token token_domain

unfoldable pub domain_for_dimension : String → Option Domain
unfolding dimension_domain lookup
domain_for_dimension dim = lookup dim dimension_domain

-- The unknown domain, whose stratum is 0, is no value of the type.
unfoldable pub stratum : Domain → ℕ
stratum discovery = 1
stratum architecture = 2
stratum planning = 3
stratum execution = 4
stratum operations = 5

-- The sort of the source leaves this order as it is.
unfoldable pub strata_above : Domain → List Domain
unfolding stratum
strata_above d = filter (λ c. ltb (stratum c) (stratum d)) domains

unfoldable pub is_domain : String → Bool
unfolding any domain_name
is_domain s = any (λ d. domain_name d == s) domains
