-- ===== src/Prelude/Sorting/Groups.antt =====
-- A stable sort by a score with few values is the elements of each value in turn.
use mathlib.Core.List.{List, [], ◌∷◌, ◌++◌}
use mathlib.Core.Bool.{true, false}
use mathlib.Core.Logic.{◌⊎◌, inl, inr}
use mathlib.Core.Path.{◌≡◌, refl, ap, sym, ◌∙◌}
use Prim.Native.Nat.{ℕ, ◌<◌, ◌≤◌}
use native.Mathlib.Omega.{arith}
use windsurf_to_api_go.Prelude.Tests.{◌==◌}
use windsurf_to_api_go.Prelude.Lists.{keep_if, All, All-append}
use windsurf_to_api_go.Prelude.Sorting.{insert_by, sort_by, higher}

-- Each value is above the ones after it.
abbrev pub Descends : List ℕ → Type 0
Descends [] = Unit
Descends (v ∷ vs) = All (λ w. w < v) vs × Descends vs

abbrev pub Among : ℕ → List ℕ → Type 0
Among n [] = ⊥
Among n (v ∷ vs) = (n ≡ v) ⊎ Among n vs

module _ {ℓ} {A : Type ℓ} (score : A → ℕ) where
  unfoldable pub in_groups : List ℕ → List A → List A
  in_groups [] xs = []
  in_groups (v ∷ vs) xs = keep_if (λ a. score a == v) xs ++ in_groups vs xs

  in_groups_empty : (vs : List ℕ) → in_groups vs [] ≡ []
  unfolding in_groups
  in_groups_empty [] = refl
  in_groups_empty (v ∷ vs) = in_groups_empty vs

  in_groups_skip :
      (x : A) (xs : List A) (vs : List ℕ)
      → All (λ w. w < score x) vs
      → in_groups vs (x ∷ xs) ≡ in_groups vs xs
  unfolding in_groups
  in_groups_skip x xs [] h = refl
  in_groups_skip x xs (v ∷ vs) h = ground (arith, in_groups_skip x xs vs h.1)

  keep_if_value :
      (v n : ℕ) (xs : List A) → v ≤ n → All (λ a. score a ≤ n) (keep_if (λ a. score a == v) xs)
  keep_if_value v n [] h = tt
  keep_if_value v n (x ∷ xs) h = ground (arith, keep_if_value v n xs h)

  keep_if_above :
      (v n : ℕ) (xs : List A) → n < v → All (λ a. n < score a) (keep_if (λ a. score a == v) xs)
  keep_if_above v n [] h = tt
  keep_if_above v n (x ∷ xs) h = ground (arith, keep_if_above v n xs h)

  below : (n v : ℕ) (vs : List ℕ) → All (λ w. w < v) vs → v ≤ n → All (λ w. w ≤ n) vs
  below n v [] h le = tt
  below n v (w ∷ vs) h le = (omega (arith, h.0), below n v vs h.1 le)

  in_groups-All :
      (n : ℕ) (vs : List ℕ) (xs : List A)
      → All (λ w. w ≤ n) vs
      → All (λ a. score a ≤ n) (in_groups vs xs)
  unfolding in_groups
  in_groups-All n [] xs h = tt
  in_groups-All n (v ∷ vs) xs h =
      All-append (λ a. score a ≤ n) (keep_if (λ a. score a == v) xs) (in_groups vs xs)
        (keep_if_value v n xs h.0) (in_groups-All n vs xs h.1)

  insert_front :
      (x : A) (ys : List A)
      → All (λ a. score a ≤ score x) ys
      → insert_by (higher score) x ys ≡ x ∷ ys
  unfolding insert_by
  insert_front x [] h = refl
  insert_front x (y ∷ ys) h = ground arith

  insert_after :
      (x : A) (xs ys : List A)
      → All (λ a. score x < score a) xs
      → insert_by (higher score) x (xs ++ ys) ≡ xs ++ insert_by (higher score) x ys
  unfolding insert_by
  insert_after x [] ys h = refl
  insert_after x (z ∷ xs) ys h = ground (arith, insert_after x xs ys h.1)

  Among-below : (n v : ℕ) (vs : List ℕ) → All (λ w. w < v) vs → Among n vs → n < v
  Among-below n v [] h m = elim m [ ]
  Among-below n v (w ∷ vs) h (inl e) = omega (arith, h.0)
  Among-below n v (w ∷ vs) h (inr m) = Among-below n v vs h.1 m

  insert_by-in_groups :
      (x : A) (xs : List A) (vs : List ℕ)
      → Descends vs
      → Among (score x) vs
      → insert_by (higher score) x (in_groups vs xs) ≡ in_groups vs (x ∷ xs)
  unfolding in_groups
  insert_by-in_groups x xs [] d m = elim m [ ]
  insert_by-in_groups x xs (v ∷ vs) d (inl e) =
      let above : All (λ w. w < score x) vs = rw e d.0 in
      let hit : (score x == v) ≡ true = ground arith in
      let top : v ≤ score x = omega arith in
      rw (hit, in_groups_skip x xs vs above)
        (insert_front x (keep_if (λ a. score a == v) xs ++ in_groups vs xs)
          (in_groups-All (score x) (v ∷ vs) xs (top, below (score x) v vs d.0 top)))
  insert_by-in_groups x xs (v ∷ vs) d (inr m) =
      let lt = Among-below (score x) v vs d.0 m in
      let miss : (score x == v) ≡ false = ground arith in
      rw miss (
        insert_after x (keep_if (λ a. score a == v) xs) (in_groups vs xs)
          (keep_if_above v (score x) xs lt)
        ∙ ap (λ ys. keep_if (λ a. score a == v) xs ++ ys) (insert_by-in_groups x xs vs d.1 m))

  pub sort_by-in_groups :
      (vs : List ℕ) (xs : List A)
      → Descends vs
      → All (λ a. Among (score a) vs) xs
      → sort_by (higher score) xs ≡ in_groups vs xs
  unfolding sort_by
  sort_by-in_groups vs [] d h = sym (in_groups_empty vs)
  sort_by-in_groups vs (x ∷ xs) d h =
      ap (insert_by (higher score) x) (sort_by-in_groups vs xs d h.1)
      ∙ insert_by-in_groups x xs vs d h.0
