-- ===== src/Store/Lineage.antt =====
-- `isAncestor` against the lineage that the archive records.
use eka_core.Base.{
  ℕ, zero, suc, ◌≤◌, ◌<◌, String, ◌≡◌, refl, sym, ap, ◌∙◌, ◌↔◌, ◌⊎◌, inl, inr, Bool, true, false,
  ◌||◌, some, List, [], ◌∷◌, arith, eq_iff, eq_refl, ◌==◌, if◌then◌else◌, Bool-cases, Option-cases,
  eq_of_==, ==_of_eq, not-both, length, contains,
}
use eka_core.Store.Rows.{PayloadRow, find_payload}
use eka_core.Store.Put.{ancestor_walk, is_ancestor}

-- `h` is `target`, or a payload whose predecessor comes from `target`. The text "" is no payload.
pub data Ancestor (ps : List PayloadRow) (target : String) : String → Type 0 where
  here : {h : String} → (h == "") ≡ false → h ≡ target → Ancestor ps target h
  older :
      {h : String} (p : PayloadRow)
      → (h == "") ≡ false
      → find_payload h ps ≡ some p
      → Ancestor ps target p.prev_hash
      → Ancestor ps target h

-- The rows that the walk has not met.
unmet : List String → List PayloadRow → ℕ
unmet visited [] = 0
unmet visited (p ∷ ps) =
    let rest = unmet visited ps in if contains visited p.object_hash then rest else suc rest

unmet-le :
    (h : String) (visited : List String) (ps : List PayloadRow)
    → unmet (h ∷ visited) ps ≤ unmet visited ps
unfolding unmet contains
unmet-le h visited [] = omega arith
unmet-le h visited (p ∷ ps) = ground (arith, unmet-le h visited ps)

unmet-lt :
    (h : String) (visited : List String) (ps : List PayloadRow) (p : PayloadRow)
    → contains visited h ≡ false
    → find_payload h ps ≡ some p
    → unmet (h ∷ visited) ps < unmet visited ps
unfolding unmet contains find_payload
unmet-lt h visited [] p new found = absurd (cc)
unmet-lt h visited (q ∷ ps) p new found = elim (Bool-cases (q.object_hash == h)) [
  | inl same ↦
      let e = eq_of_== q.object_hash h same in
      rw (e, eq_refl h, new) (omega (arith, unmet-le h visited ps))
  | inr other ↦
      ground (arith, eq_iff q.object_hash h, eq_iff h q.object_hash, unmet-lt h visited ps p)
]

unmet_start : (ps : List PayloadRow) → unmet [] ps ≡ length ps
unfolding unmet contains
unmet_start [] = refl
unmet_start (p ∷ ps) = ap suc (unmet_start ps)

same_row : (p q : PayloadRow) → some p ≡ some q → p.prev_hash ≡ q.prev_hash
same_row p q h = ground arith

module _ (ps : List PayloadRow) (target : String) where
  walk_ends :
      (fuel : ℕ) (visited : List String) (next : String)
      → unmet visited ps < fuel
      → (b : Bool) × (ancestor_walk ps fuel visited target next ≡ some b)
  unfolding ancestor_walk
  walk_ends zero visited next h = absurd (omega arith)
  walk_ends (suc fuel) visited next h = elim (Bool-cases (next == "" || contains visited next)) [
    | inl stop ↦ (false, rw stop)
    | inr on ↦ elim (Bool-cases (next == target)) [
      | inl hit ↦ (true, rw (on, hit))
      | inr miss ↦ elim (Option-cases (find_payload next ps)) [
        | inl gone ↦ (false, rw (on, miss, gone, ancestor_walk))
        | inr (p, found) ↦
            let (b, e) =
              walk_ends fuel (next ∷ visited) p.prev_hash
                (omega (arith, unmet-lt next visited ps p (ground arith) found)) in
            (b, rw (on, miss, found, ancestor_walk) e)
      ]
    ]
  ]

  walk_sound :
      (fuel : ℕ) (visited : List String) (next : String)
      → ancestor_walk ps fuel visited target next ≡ some true
      → Ancestor ps target next
  unfolding ancestor_walk
  walk_sound zero visited next e = absurd (cc)
  walk_sound (suc fuel) visited next e = elim (Bool-cases (next == "" || contains visited next)) [
    | inl stop ↦ absurd (cc (rw stop at e))
    | inr on ↦ elim (Bool-cases (next == target)) [
      | inl hit ↦ here (ground arith) (eq_of_== next target hit)
      | inr miss ↦ elim (Option-cases (find_payload next ps)) [
        | inl gone ↦ absurd (cc (rw (on, miss, gone, ancestor_walk) at e))
        | inr (p, found) ↦ older p (ground arith) found (
            walk_sound fuel (next ∷ visited) p.prev_hash (rw (on, miss, found, ancestor_walk) at e))
      ]
    ]
  ]

  -- Every payload met is not the target, and leads to one met or to the next.
  abbrev Walked : List String → String → Type 0
  Walked visited next =
      (x : String)
      → contains visited x ≡ true
      → ((x == target) ≡ false)
        × ((p : PayloadRow)
            → find_payload x ps ≡ some p
            → (contains visited p.prev_hash ≡ true) ⊎ (p.prev_hash ≡ next))

  closed_misses :
      (visited : List String) (next x : String)
      → Walked visited next
      → contains visited next ≡ true
      → contains visited x ≡ true
      → ¬ Ancestor ps target x
  closed_misses visited next x w loops met (here _ e) = not-both (==_of_eq x target e) (w x met).0
  closed_misses visited next x w loops met (older p _ found a) = elim ((w x met).1 p found) [
    | inl again ↦ closed_misses visited next p.prev_hash w loops again a
    | inr e ↦ closed_misses visited next p.prev_hash w loops (rw e loops) a
  ]

  Walked-cons :
      (visited : List String) (next : String) (p : PayloadRow)
      → Walked visited next
      → (next == target) ≡ false
      → find_payload next ps ≡ some p
      → Walked (next ∷ visited) p.prev_hash
  unfolding contains
  Walked-cons visited next p w miss found x met = elim (Bool-cases (next == x)) [
    | inl same ↦ let e = eq_of_== next x same in (rw (← e) miss, λ q got. inr (same_row q p (cc)))
    | inr other ↦
        let (missed, leads) = w x (rw other at met) in
        (
          missed,
          λ q got. elim (leads q got) [
            | inl again ↦ inl (ground arith)
            | inr e ↦ inl (ground (arith, ==_of_eq next q.prev_hash (sym e)))
          ],
        )
  ]

  walk_complete :
      (fuel : ℕ) (visited : List String) (next : String)
      → Walked visited next
      → ancestor_walk ps fuel visited target next ≡ some false
      → ¬ Ancestor ps target next
  unfolding ancestor_walk
  walk_complete zero visited next w e a = absurd (cc)
  walk_complete (suc fuel) visited next w e (here {h} solid hit) =
      elim (Bool-cases (contains visited h)) [
        | inl met ↦ not-both (==_of_eq h target hit) (w h met).0
        | inr new ↦ absurd (cc (rw (solid, new, ==_of_eq h target hit) at e))
      ]
  walk_complete (suc fuel) visited next w e (older {h} p solid found a) =
      elim (Bool-cases (contains visited h)) [
        | inl met ↦ closed_misses visited h h w met met (older p solid found a)
        | inr new ↦ elim (Bool-cases (h == target)) [
          | inl hit ↦ absurd (cc (rw (solid, new, hit) at e))
          | inr miss ↦
              walk_complete fuel (h ∷ visited) p.prev_hash (Walked-cons visited h p w miss found)
                (rw (solid, new, miss, found, ancestor_walk) at e) a
        ]
      ]

module _ (ps : List PayloadRow) (target current : String) where
  nothing-Walked : Walked ps target [] current
  unfolding contains
  nothing-Walked x met = absurd (cc)

  walk_enough : (b : Bool) × (ancestor_walk ps (suc (length ps)) [] target current ≡ some b)
  walk_enough = walk_ends ps target (suc (length ps)) [] current (omega (arith, unmet_start ps))

  is_ancestor-walk :
      (b : Bool)
      → ancestor_walk ps (suc (length ps)) [] target current ≡ some b
      → is_ancestor ps target current ≡ b
  unfolding is_ancestor
  is_ancestor-walk b ends = rw (ends, is_ancestor) refl

  pub is_ancestor-Ancestor : (is_ancestor ps target current ≡ true) ↔ Ancestor ps target current
  is_ancestor-Ancestor =
      let (b, ends) = walk_enough in
      let answer = is_ancestor-walk b ends in
      (
        λ yes.
            walk_sound ps target (suc (length ps)) [] current (ends ∙ ap some (sym answer ∙ yes)),
        λ a. elim (Bool-cases b) [
          | inl e ↦ answer ∙ e
          | inr e ↦ absurd (
              walk_complete ps target (suc (length ps)) [] current nothing-Walked (ends ∙ ap some e)
                a)
        ],
      )

  -- The walk along the predecessors of `current` gives an answer within one round more than there are
  -- payloads, also on a lineage with a cycle. `isAncestor` gives that answer, and it is true exactly
  -- when `target` is `current` or one of the payloads it comes from.
  pub is_ancestor_iff :
      (b : Bool) × (ancestor_walk ps (suc (length ps)) [] target current ≡ some b)
      × (is_ancestor ps target current ≡ b)
      × ((b ≡ true) ↔ Ancestor ps target current)
  is_ancestor_iff =
      let (b, ends) = walk_enough in
      let answer = is_ancestor-walk b ends in (b, ends, answer, rw (← answer) is_ancestor-Ancestor)
