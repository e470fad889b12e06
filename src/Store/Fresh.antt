-- ===== src/Store/Fresh.antt =====
-- store/payloads.go: a payload of a new digest against the lineage of the stored ones.
use mathlib.Core.Path.{subst}
use eka_core.Base.{
  String, ◌≡◌, refl, sym, ◌⊎◌, inl, inr, true, false, Option, none, some, List, [], ◌∷◌, ◌==◌,
  Bool-cases, eq_of_==, not-both, is_some,
}
use eka_core.Store.Rows.{PayloadRow, find_payload}
use eka_core.Store.Archive.{Extends-cons}
use eka_core.Store.Lineage.{Ancestor, here, older}
use eka_core.Store.Invariant.{IsLineage}

is_some_of : {A : Type 0} (o : Option A) (a : A) → o ≡ some a → is_some o ≡ true
is_some_of o a e = rw e refl

some_of_is : {A : Type 0} (o : Option A) → is_some o ≡ true → (a : A) × (o ≡ some a)
some_of_is none h = absurd (cc)
some_of_is (some a) h = (a, refl)

same_payload : (p q : PayloadRow) → some p ≡ some q → p ≡ q
same_payload p q e = cc

-- A predecessor is missing or stored.
Closed : List PayloadRow → PayloadRow → Type 0
Closed ps p = ((p.prev_hash == "") ≡ true) ⊎ (is_some (find_payload p.prev_hash ps) ≡ true)

Closed-cons :
    (q : PayloadRow) (ps : List PayloadRow) (p : PayloadRow)
    → find_payload q.object_hash ps ≡ none
    → Closed ps p
    → Closed (q ∷ ps) p
unfolding Closed
Closed-cons q ps p absent (inl e) = inl e
Closed-cons q ps p absent (inr stored) =
    let (a, found) = some_of_is (find_payload p.prev_hash ps) stored in
    inr (
      is_some_of (find_payload p.prev_hash (q ∷ ps)) a
        (Extends-cons q ps absent p.prev_hash a found))

IsLineage-Closed :
    (sha : String → String) (ps : List PayloadRow) (h : String) (p : PayloadRow)
    → IsLineage sha ps
    → find_payload h ps ≡ some p
    → Closed ps p
unfolding find_payload Closed
IsLineage-Closed sha [] h p l found = absurd (cc)
IsLineage-Closed sha (q ∷ ps) h p (address, absent, prev, rest) found =
    elim (Bool-cases (q.object_hash == h)) [
      | inl same ↦
          subst (Closed (q ∷ ps)) (same_payload q p (rw same at found))
            (Closed-cons q ps q absent prev)
      | inr other ↦ Closed-cons q ps p absent (IsLineage-Closed sha ps h p rest (rw other at found))
    ]

Ancestor-solid :
    (ps : List PayloadRow) (target h : String) → Ancestor ps target h → (h == "") ≡ false
Ancestor-solid ps target h (here solid same) = solid
Ancestor-solid ps target h (older p solid found rest) = solid

-- A digest that is not stored yet is no ancestor of a stored payload.
pub new-not_Ancestor :
    (sha : String → String) (ps : List PayloadRow) (q : PayloadRow) (h : String)
    → IsLineage sha ps
    → find_payload q.object_hash ps ≡ none
    → is_some (find_payload h ps) ≡ true
    → ¬ Ancestor (q ∷ ps) q.object_hash h
unfolding find_payload Closed
new-not_Ancestor sha ps q h l absent stored (here solid same) =
    absurd (cc (rw (same, absent) at stored))
new-not_Ancestor sha ps q h l absent stored (older p solid found rest) =
    elim (Bool-cases (q.object_hash == h)) [
      | inl same ↦ absurd (cc (rw (sym (eq_of_== q.object_hash h same), absent) at stored))
      | inr other ↦ elim (IsLineage-Closed sha ps h p l (rw other at found)) [
        | inl none_before ↦
            not-both none_before (Ancestor-solid (q ∷ ps) q.object_hash p.prev_hash rest)
        | inr prior ↦ new-not_Ancestor sha ps q p.prev_hash l absent prior rest
      ]
    ]
