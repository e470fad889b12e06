-- ===== src/Store/Busy.antt =====
-- store/busy.go: a write is tried again while another process holds the database.
use eka_core.Base.{
  ℕ, zero, suc, ◌+◌, ◌-◌, ◌≤◌, ◌<◌, ◌≡◌, refl, ◌≢◌, ◌⊎◌, inl, inr, none, some, List, [], ◌∷◌, arith,
  eqb, Bool-cases, get_elem?,
}

abbrev pub max_busy_attempts : ℕ
max_busy_attempts = 5

-- Milliseconds.
abbrev pub busy_backoff : List ℕ
busy_backoff = 100 ∷ 200 ∷ 400 ∷ 800 ∷ []

-- How one attempt ends: without an error, on a busy database, or on another error.
pub data Attempt : Type 0 where
  succeeded : Attempt
  was_busy : Attempt
  failed : Attempt

-- The attempts made, the milliseconds slept, and how the last attempt ended.
pub record Retried : Type 0 where
  pub attempts : ℕ
  pub slept : ℕ
  pub last : Attempt

backoff : ℕ → ℕ
backoff attempt = elim (get_elem? busy_backoff attempt) [ none ↦ 0 | some ms ↦ ms ]

-- The rounds of the loop from `attempt` on; `op` says how each attempt ends. With no round left the
-- error of the last one is returned.
retry_from : (ℕ → Attempt) → ℕ → ℕ → Retried → Retried
unfolding backoff
retry_from op zero attempt r = r
retry_from op (suc rounds) attempt r =
    let last = op attempt in
    let once = record r { attempts = suc r.attempts; last = last } in
    let more =
      retry_from op rounds (suc attempt) (record once { slept = r.slept + backoff attempt }) in
    elim last [ succeeded ↦ once | failed ↦ once | was_busy ↦ more ]

unfoldable pub retry_busy : (ℕ → Attempt) → Retried
unfolding retry_from
retry_busy op =
    retry_from op max_busy_attempts 0 (record { attempts = 0; slept = 0; last = succeeded })

Attempt-cases : (a : Attempt) → (a ≡ was_busy) ⊎ (a ≢ was_busy)
Attempt-cases succeeded = inr (λ e. cc)
Attempt-cases was_busy = inl refl
Attempt-cases failed = inr (λ e. cc)

dec_eq : (i n : ℕ) → (i ≡ n) ⊎ (i ≢ n)
dec_eq i n = elim (Bool-cases (eqb i n)) [
  | inl e ↦ inl (ground arith)
  | inr ne ↦ inr (λ e. ground arith)
]

-- The longest sleep of some rounds.
waits : ℕ → ℕ → ℕ
waits zero attempt = 0
waits (suc rounds) attempt = backoff attempt + waits rounds (suc attempt)

stops :
    (op : ℕ → Attempt) (rounds attempt : ℕ) (r : Retried)
    → op attempt ≢ was_busy
    → retry_from op (suc rounds) attempt r
      ≡ record r { attempts = suc r.attempts; last = op attempt }
unfolding retry_from
stops op rounds attempt r calm = ground arith

goes_on :
    (op : ℕ → Attempt) (rounds attempt : ℕ) (r : Retried)
    → op attempt ≡ was_busy
    → retry_from op (suc rounds) attempt r
      ≡ retry_from op rounds (suc attempt) (record {
        attempts = suc r.attempts;
        slept = r.slept + backoff attempt;
        last = op attempt;
      })
unfolding retry_from
goes_on op rounds attempt r busy = ground arith

record Ends (op : ℕ → Attempt) (rounds attempt slept : ℕ) (q : Retried) : Type 0 where
  made : attempt < q.attempts
  bounded : q.attempts ≤ attempt + rounds
  waited : q.slept ≤ slept + waits rounds attempt
  final : q.last ≡ op (q.attempts - 1)
  before : (i : ℕ) → attempt ≤ i → suc i < q.attempts → op i ≡ was_busy
  why : (op (q.attempts - 1) ≢ was_busy) ⊎ (q.attempts ≡ attempt + rounds)

abbrev after_busy : (ℕ → Attempt) → Retried → Retried
after_busy op r = record {
  attempts = suc r.attempts;
  slept = r.slept + backoff r.attempts;
  last = op r.attempts;
}

last_index : (n : ℕ) → suc n - 1 ≡ n
last_index n = omega arith

calm_end :
    (op : ℕ → Attempt) (rounds : ℕ) (r : Retried)
    → op r.attempts ≢ was_busy
    → Ends op
        (suc rounds)
        r.attempts
        r.slept
        (record r { attempts = suc r.attempts; last = op r.attempts })
unfolding waits
calm_end op rounds r calm = record {
  made = omega arith;
  bounded = omega arith;
  waited = omega arith;
  final = rw last_index;
  before = λ i low high. absurd (omega arith);
  why = inl (rw last_index calm);
}

retry_from-Ends :
    (op : ℕ → Attempt) (rounds : ℕ) (r : Retried)
    → Ends op (suc rounds) r.attempts r.slept (retry_from op (suc rounds) r.attempts r)
unfolding waits
retry_from-Ends op zero r = elim (Attempt-cases (op r.attempts)) [
  | inr calm ↦ rw (stops op zero r.attempts r calm) (calm_end op zero r calm)
  | inl busy ↦ rw (goes_on op zero r.attempts r busy) (
      unfold retry_from in
      record {
        made = omega arith;
        bounded = omega arith;
        waited = omega arith;
        final = rw last_index;
        before = λ i low high. absurd (omega arith);
        why = inr (omega arith);
      })
]
retry_from-Ends op (suc rounds) r = elim (Attempt-cases (op r.attempts)) [
  | inr calm ↦ rw (stops op (suc rounds) r.attempts r calm) (calm_end op (suc rounds) r calm)
  | inl busy ↦
      let ih = retry_from-Ends op rounds (after_busy op r) in
      rw (goes_on op (suc rounds) r.attempts r busy) (record {
        made = omega arith;
        bounded = omega arith;
        waited = omega arith;
        final = ih.final;
        before = λ i low high. elim (dec_eq i r.attempts) [
          | inl e ↦ rw e busy
          | inr ne ↦ ih.before i (omega arith) high
        ];
        why = elim ih.why [ inl calm ↦ inl calm | inr all ↦ inr (omega arith) ];
      })
]

-- A write is attempted at least once and at most five times, and sleeps at most 1.5 seconds. All
-- attempts but the last found the database busy, and the last did not, unless it is the fifth.
pub retry_busy_bounds :
    (op : ℕ → Attempt)
    → let r = retry_busy op in
      (1 ≤ r.attempts)
      × (r.attempts ≤ 5)
      × (r.slept ≤ 1500)
      × (r.last ≡ op (r.attempts - 1))
      × ((i : ℕ) → suc i < r.attempts → op i ≡ was_busy)
      × ((op (r.attempts - 1) ≢ was_busy) ⊎ (r.attempts ≡ 5))
unfolding retry_busy waits
retry_busy_bounds op =
    let ends = retry_from-Ends op 4 (record { attempts = 0; slept = 0; last = succeeded }) in
    (
      ends.made,
      ends.bounded,
      ends.waited,
      ends.final,
      λ i h. ends.before i (omega arith) h,
      ends.why,
    )
