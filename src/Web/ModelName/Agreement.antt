-- ===== src/Web/ModelName/Agreement.antt =====
-- The dashboard's `displayModelName` and the server's `DisplayName` print the same labels.
use windsurf_to_api_go.Prelude.{
  ℕ, zero, suc, ◌+◌, ◌≤◌, Bool, true, false, ◌||◌, Option, none, some, List, [], ◌∷◌, length,
  length-drop, drop, Bool-cases, inl, inr, if◌then◌else◌, arith, ◌≡◌, refl, ap,
}
use windsurf_to_api_go.Prelude.Codes.{Codes, same_codes, to_upper, to_lower, split, join}
use windsurf_to_api_go.Models.DisplayName
use windsurf_to_api_go.Web.ModelName.{
  acronyms, has, version_loop, is_versionish, digits_loop, is_pure_digits, at, digits_at, capital,
  name_loop, display_model_name,
}

version_loop-eq : (s : Codes) (b : Bool) → version_loop s b ≡ DisplayName.versionish_loop b s
unfolding version_loop DisplayName.versionish_loop
version_loop-eq [] b = refl
version_loop-eq (c ∷ s) b = rw (version_loop-eq s true, version_loop-eq s b) refl

is_versionish-eq : (s : Codes) → is_versionish s ≡ DisplayName.is_versionish s
unfolding is_versionish DisplayName.is_versionish DisplayName.versionish_loop
is_versionish-eq [] = refl
is_versionish-eq (c ∷ s) = version_loop-eq (c ∷ s) false

digits_loop-eq : (s : Codes) → digits_loop s ≡ DisplayName.all_digits s
unfolding digits_loop DisplayName.all_digits
digits_loop-eq [] = refl
digits_loop-eq (c ∷ s) = rw (digits_loop-eq s) refl

is_pure_digits-eq : (s : Codes) → is_pure_digits s ≡ DisplayName.is_pure_digits s
unfolding is_pure_digits DisplayName.is_pure_digits
is_pure_digits-eq [] = refl
is_pure_digits-eq (c ∷ s) = digits_loop-eq (c ∷ s)

or_chain : (a b c d : Bool) → (a || (b || (c || (d || false)))) ≡ (a || b || c || d)
or_chain true b c d = refl
or_chain false true c d = refl
or_chain false false true d = refl
or_chain false false false true = refl
or_chain false false false false = refl

has-is_acronym : (s : Codes) → has acronyms (to_lower s) ≡ DisplayName.is_acronym s
unfolding has DisplayName.is_acronym
has-is_acronym s =
    let is = λ (w : Codes). same_codes (to_lower s) w in
    or_chain (is (103 ∷ 112 ∷ 116 ∷ [])) (is (103 ∷ 108 ∷ 109 ∷ [])) (is (115 ∷ 119 ∷ 101 ∷ []))
      (is (111 ∷ 115 ∷ 115 ∷ []))

capital-eq : (s : Codes) → capital s ≡ DisplayName.capital s
capital-eq [] = refl
capital-eq (c ∷ s) = refl

display_part-eq :
    (s : Codes) → (if is_versionish s then to_upper s else capital s) ≡ DisplayName.display_part s
unfolding DisplayName.display_part
display_part-eq s = rw (is_versionish-eq s, capital-eq s) refl

abbrev head_or_none : List Codes → Option Codes
head_or_none [] = none
head_or_none (p ∷ ps) = some p

at-drop_cons :
    (parts : List Codes) (i : ℕ) (p : Codes) (ps : List Codes)
    → drop i parts ≡ p ∷ ps
    → (at parts i ≡ some p) × (drop (suc i) parts ≡ ps)
at-drop_cons [] zero p ps h = cc
at-drop_cons [] (suc i) p ps h = cc
at-drop_cons (x ∷ parts) zero p ps h = (ap head_or_none h, ap (λ xs. drop 1 xs) h)
at-drop_cons (x ∷ parts) (suc i) p ps h = at-drop_cons parts i p ps h

at-drop_nil : (parts : List Codes) (i : ℕ) → drop i parts ≡ [] → at parts i ≡ none
at-drop_nil [] i h = refl
at-drop_nil (x ∷ parts) zero h = cc
at-drop_nil (x ∷ parts) (suc i) h = at-drop_nil parts i h

digits_at-none : (parts : List Codes) (i : ℕ) → at parts i ≡ none → digits_at parts i ≡ none
unfolding digits_at
digits_at-none parts i h = rw (digits_at, h) refl

digits_at-some :
    (parts : List Codes) (i : ℕ) (q : Codes)
    → at parts i ≡ some q
    → digits_at parts i ≡ (if is_pure_digits q then some q else none)
unfolding digits_at
digits_at-some parts i q h = rw (digits_at, h) refl

module _ (parts : List Codes) where
  Agrees : ℕ → Type 0
  Agrees fuel =
      (i : ℕ) (rest : List Codes) (out : List Codes)
      → length parts ≤ i + fuel
      → drop i parts ≡ rest
      → name_loop fuel parts i out ≡ DisplayName.display_loop rest out

  module _ (fuel i : ℕ) (p : Codes) (out : List Codes) (le : length parts ≤ i + suc fuel) where
    step_last :
        Agrees fuel
        → drop i parts ≡ p ∷ []
        → name_loop (suc fuel) parts i out ≡ DisplayName.display_loop (p ∷ []) out
    unfolding Agrees name_loop digits_at DisplayName.display_loop
    step_last ih h =
        let here = at-drop_cons parts i p [] h in
        let next = digits_at-none parts (suc i) (at-drop_nil parts (suc i) here.1) in
        let go : (o : List Codes) → name_loop fuel parts (suc i) o ≡ o =
          λ o. ih (suc i) [] o (omega arith) here.1 in
        rw (name_loop, here.0, next, has-is_acronym p)
          (elim (Bool-cases (is_pure_digits p)) [
            | inl e ↦ rw (e, display_part-eq p) (simp go refl)
            | inr e ↦ rw (e, display_part-eq p) (simp go refl)
          ])

    step_more :
        (q : Codes) (ps : List Codes)
        → Agrees fuel
        → drop i parts ≡ p ∷ q ∷ ps
        → name_loop (suc fuel) parts i out ≡ DisplayName.display_loop (p ∷ q ∷ ps) out
    unfolding Agrees name_loop digits_at DisplayName.display_loop
    step_more q ps ih h =
        let here = at-drop_cons parts i p (q ∷ ps) h in
        let next = at-drop_cons parts (suc i) q ps here.1 in
        let one : (o : List Codes)
            → name_loop fuel parts (suc i) o ≡ DisplayName.display_loop (q ∷ ps) o =
          λ o. ih (suc i) (q ∷ ps) o (omega arith) here.1 in
        let two : (o : List Codes)
            → name_loop fuel parts (suc (suc i)) o ≡ DisplayName.display_loop ps o =
          λ o. ih (suc (suc i)) ps o (omega arith) next.1 in
        let pair = digits_at-some parts (suc i) q next.0 in
        rw (name_loop, here.0, pair, has-is_acronym p, ← is_pure_digits-eq p, ← is_pure_digits-eq q)
          (elim (Bool-cases (is_pure_digits p)) [
            | inl e ↦ elim (Bool-cases (is_pure_digits q)) [
              | inl f ↦ rw (e, f) (simp (one, two) refl)
              | inr f ↦ rw (e, f, display_part-eq p) (simp one refl)
            ]
            | inr e ↦ rw (e, display_part-eq p) (simp one refl)
          ])

  name_loop-display_loop : (fuel : ℕ) → Agrees fuel
  unfolding Agrees name_loop DisplayName.display_loop
  name_loop-display_loop zero i [] out le h = refl
  name_loop-display_loop zero i (p ∷ ps) out le h =
      absurd (omega (arith, length-drop i parts, ap (λ (xs : List Codes). length xs) h))
  name_loop-display_loop (suc fuel) i [] out le h = rw (name_loop, at-drop_nil parts i h) refl
  name_loop-display_loop (suc fuel) i (p ∷ []) out le h =
      step_last fuel i p out le (name_loop-display_loop fuel) h
  name_loop-display_loop (suc fuel) i (p ∷ q ∷ ps) out le h =
      step_more fuel i p out le q ps (name_loop-display_loop fuel) h

-- On every key of ASCII characters, the dashboard's `displayModelName` gives the label that the
-- server's `DisplayName` gives.
pub display_model_name-display_name :
    (key : Codes) → display_model_name key ≡ DisplayName.display_name key
unfolding display_model_name DisplayName.display_name Agrees
display_model_name-display_name [] = refl
display_model_name-display_name (c ∷ key) = ap (join (32 ∷ [])) (
    name_loop-display_loop (split 45 (c ∷ key)) (length (split 45 (c ∷ key))) 0 (split 45 (c ∷ key))
      [] (omega arith) refl)
