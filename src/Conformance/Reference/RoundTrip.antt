-- ===== src/Conformance/Reference/RoundTrip.antt =====
-- conformance/rules.go, `parseReference` on line forms.
use Prim.Native.Char.{Char}
use text.Mathlib.TextLemmas.{cons-append, nil-append, append-eq-nil_iff}
use eka_core.Base.{
  ℕ, String, ◌≡◌, refl, ap, ◌∙◌, inl, inr, Bool, true, false, not, ◌&&◌, List, [], ◌∷◌, arith, ◌==◌,
  Bool-cases, eq_of_==, ==_of_eq, &&_elim, not-both, lookup, is_some, ok, ◌⊕◌, is_space, trim_space,
  every, every-append, every_of_imp, is_not, cut-append, cut-eq-none, cut_last-eq-none,
  trim_space-clean,
}
use eka_core.Conformance.State.{type_tokens, is_known_type}
use eka_core.Conformance.Reference.{with_type, with_version}
use eka_core.Conformance.Reference.{parse_reference, line_form}

-- No white space, no colon, no slash.
abbrev pub is_name_char : ℕ → Bool
is_name_char c = not (is_space c) && (is_not b':' c && is_not b'/' c)

abbrev pub IsName : String → Type 0
IsName s = (every is_name_char s ≡ true) × ((s == "") ≡ false)

all_keys : {V : Type 0} → (String → Bool) → List (String × V) → Bool
all_keys test [] = true
all_keys test ((k, v) ∷ m) = test k && all_keys test m

key_of_lookup :
    {V : Type 0} (test : String → Bool) (k : String) (m : List (String × V))
    → all_keys test m ≡ true
    → is_some (lookup k m) ≡ true
    → test k ≡ true
unfolding all_keys lookup
key_of_lookup test k [] a h = absurd (cc)
key_of_lookup test k ((j, v) ∷ m) a h = elim (Bool-cases (j == k)) [
  | inl e ↦ rw (← eq_of_== j k e) ((&&_elim (test j) _ a).0)
  | inr e ↦ key_of_lookup test k m (&&_elim (test j) _ a).1 (rw e at h)
]

type-name : (ty : String) → is_known_type ty ≡ true → every is_name_char ty ≡ true
unfolding is_known_type all_keys every is_space type_tokens
type-name ty h = key_of_lookup (every is_name_char) ty type_tokens refl h

every_imp :
    (p : ℕ → Bool) (s : String)
    → ((c : ℕ) → is_name_char c ≡ true → p c ≡ true)
    → every is_name_char s ≡ true
    → every p s ≡ true
every_imp p s imp h = every_of_imp is_name_char p imp s h

module _ (s : String) (h : every is_name_char s ≡ true) where
  no_colon : every (is_not b':') s ≡ true
  no_colon = every_imp _ s (λ c q. ground arith) h

  no_slash : every (is_not b'/') s ≡ true
  no_slash = every_imp _ s (λ c q. ground arith) h

  no_space : every (λ c. not (is_space c)) s ≡ true
  no_space = every_imp _ s (λ c q. ground arith) h

single-append : (c : Char) (s : String) → String.◌∷◌ c String.[] ⊕ s ≡ String.◌∷◌ c s
single-append c s = cons-append c String.[] s ∙ ap (String.◌∷◌ c) (nil-append s)

line-shape : (ns ty id : String) → line_form ns ty id ≡ ns ⊕ String.◌∷◌ "/" (ty ⊕ String.◌∷◌ ":" id)
unfolding line_form
line-shape ns ty id =
    ap (λ x. ns ⊕ x)
      (single-append "/" (ty ⊕ (":" ⊕ id))
        ∙ ap (λ x. String.◌∷◌ "/" (ty ⊕ x)) (single-append ":" id))

separators_clean :
    (every (λ c. not (is_space c)) "/" && (every (λ c. not (is_space c)) ":" && true)) ≡ true
unfolding every is_space
separators_clean = refl

nonempty : (s t : String) → (s == "") ≡ false → (s ⊕ t == "") ≡ false
nonempty s t h = elim (Bool-cases (s ⊕ t == "")) [
  | inl e ↦ not-both (==_of_eq s "" (append-eq-nil_iff.0 (eq_of_== _ _ e)).0) h
  | inr e ↦ e
]

module _ (ns ty id d t : String) where
  line_clean :
      every is_name_char ns ≡ true
      → every is_name_char ty ≡ true
      → every is_name_char id ≡ true
      → trim_space (line_form ns ty id) ≡ line_form ns ty id
  unfolding line_form
  line_clean n k i =
      trim_space-clean (line_form ns ty id)
        (simp (every-append, no_space ns n, no_space ty k, no_space id i) separators_clean)

  -- A line form of plain names and a known type reads as that line, with no version, whatever the
  -- referrer's namespace and type are.
  pub parse_reference-line_form :
      IsName ns
      → is_known_type ty ≡ true
      → IsName id
      → parse_reference (line_form ns ty id) d t
        ≡ ok (record { namespace = ns; ty = ty; id = id; version = 0; has_version = false })
  unfolding parse_reference
  parse_reference-line_form (n, n') k (i, i') =
      let clean = type-name ty k in
      let after = String.◌∷◌ ":" id in
      rw (line_clean n clean i, line-shape ns ty id)
        (rw (nonempty ns (String.◌∷◌ "/" (ty ⊕ after)) n') (
          rw (cut-append b'/' "/" ns (ty ⊕ after) (no_slash ns n) refl) (
            rw (n', cut-append b':' ":" ty id (no_colon ty clean) refl, with_type)
              (rw (k, cut_last-eq-none b':' id (no_colon id i), with_version)
                (rw (i', cut-eq-none b':' id (no_colon id i)))))))
