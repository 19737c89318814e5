-- ===== src/Prelude/Sorting.antt =====
-- `sort` with a comparison, as in JavaScript: stable. `before a b` says that `a` comes strictly first.
pub mod Groups
use Prim.Native.Nat.{ℕ}
use mathlib.Core.Path.{◌≡◌, refl}
use mathlib.Core.Logic.{inl, inr}
use mathlib.Core.Bool.{Bool, true, false}
use mathlib.Core.List.{List, [], ◌∷◌}
use native.Mathlib.Omega.{arith}
use windsurf_to_api_go.Prelude.Tests.{ltb, if◌then◌else◌, Bool-cases}
use windsurf_to_api_go.Prelude.Lists.{length, keep_if, All}

module _ {ℓ} {A : Type ℓ} (before : A → A → Bool) where
  unfoldable pub insert_by : A → List A → List A
  insert_by a [] = a ∷ []
  insert_by a (b ∷ rest) =
      let later = insert_by a rest in if before b a then b ∷ later else a ∷ b ∷ rest

  unfoldable pub sort_by : List A → List A
  unfolding insert_by
  sort_by [] = []
  sort_by (a ∷ rest) = insert_by a (sort_by rest)

  -- No element comes before an earlier one.
  abbrev pub IsSortedBy : List A → Type ℓ
  IsSortedBy [] = Unit
  IsSortedBy (a ∷ rest) = All (λ b. before b a ≡ false) rest × IsSortedBy rest

  insert_by-All {κ} :
      (P : A → Type κ) (a : A) (xs : List A) → P a → All P xs → All P (insert_by a xs)
  unfolding insert_by
  insert_by-All P a [] h hs = (h, tt)
  insert_by-All P a (b ∷ rest) h hs = elim (Bool-cases (before b a)) [
    | inl e ↦ rw e (hs.0, insert_by-All P a rest h hs.1)
    | inr e ↦ rw e (h, hs)
  ]

  pub sort_by-All {κ} : (P : A → Type κ) (xs : List A) → All P xs → All P (sort_by xs)
  unfolding sort_by
  sort_by-All P [] h = tt
  sort_by-All P (a ∷ rest) h = insert_by-All P a (sort_by rest) h.0 (sort_by-All P rest h.1)

  -- A sort keeps the number of the elements that pass any test: it only changes their order.
  count_insert_by :
      (p : A → Bool) (a : A) (xs : List A)
      → length (keep_if p (insert_by a xs)) ≡ length (keep_if p (a ∷ xs))
  unfolding insert_by
  count_insert_by p a [] = refl
  count_insert_by p a (b ∷ rest) = ground (arith, count_insert_by p a rest)

  pub count_sort_by :
      (p : A → Bool) (xs : List A) → length (keep_if p (sort_by xs)) ≡ length (keep_if p xs)
  unfolding sort_by
  count_sort_by p [] = refl
  count_sort_by p (a ∷ rest) =
      ground (arith, count_insert_by p a (sort_by rest), count_sort_by p rest)

  module _ (asym : (a b : A) → before a b ≡ true → before b a ≡ false)
      (trans : (a b c : A) → before b a ≡ false → before c b ≡ false → before c a ≡ false) where
    weaken :
        (a b : A) (xs : List A)
        → before b a ≡ false
        → All (λ c. before c b ≡ false) xs
        → All (λ c. before c a ≡ false) xs
    weaken a b [] e h = tt
    weaken a b (c ∷ xs) e h = (trans a b c e h.0, weaken a b xs e h.1)

    insert_by-IsSortedBy : (a : A) (xs : List A) → IsSortedBy xs → IsSortedBy (insert_by a xs)
    unfolding insert_by
    insert_by-IsSortedBy a [] h = (tt, tt)
    insert_by-IsSortedBy a (b ∷ rest) h = elim (Bool-cases (before b a)) [
      | inl e ↦ rw e (
        insert_by-All (λ c. before c b ≡ false) a rest (asym b a e) h.0,
        insert_by-IsSortedBy a rest h.1,
      )
      | inr e ↦ rw e ((e, weaken a b rest e h.0), h)
    ]

    pub sort_by-IsSortedBy : (xs : List A) → IsSortedBy (sort_by xs)
    unfolding sort_by
    sort_by-IsSortedBy [] = tt
    sort_by-IsSortedBy (a ∷ rest) = insert_by-IsSortedBy a (sort_by rest) (sort_by-IsSortedBy rest)

-- The comparisons `(x, y) => y.n - x.n` and `(x, y) => x.n - y.n`.
module _ {ℓ} {A : Type ℓ} (score : A → ℕ) where
  abbrev pub higher : A → A → Bool
  higher a b = ltb (score b) (score a)

  abbrev pub lower_key : A → A → Bool
  lower_key a b = ltb (score a) (score b)

  pub higher_asym : (a b : A) → higher a b ≡ true → higher b a ≡ false
  higher_asym a b h = ground arith

  pub higher_trans : (a b c : A) → higher b a ≡ false → higher c b ≡ false → higher c a ≡ false
  higher_trans a b c h g = ground arith

  pub lower_asym : (a b : A) → lower_key a b ≡ true → lower_key b a ≡ false
  lower_asym a b h = ground arith

  pub lower_trans :
      (a b c : A) → lower_key b a ≡ false → lower_key c b ≡ false → lower_key c a ≡ false
  lower_trans a b c h g = ground arith
