-- ===== src/Prelude/Dict.antt =====
-- A Go map with string keys, as an association list: a write replaces the entry in place or adds one
-- at the end, and a delete drops the key. A nil map is the empty one.
use Prim.Native.Nat.{◌≤◌, ◌+◌}
use Prim.Native.String.{String}
use mathlib.Core.Path.{◌≡◌, refl}
use mathlib.Core.Bool.{true}
use mathlib.Core.List.{List, [], ◌∷◌}
use mathlib.Core.Option.{Option, none, some}
use native.Mathlib.Omega.{arith}
use windsurf_to_api_go.Prelude.Tests.{same, same_iff, same_refl, if◌then◌else◌}
use windsurf_to_api_go.Prelude.Lists.{length, keep_if}
use mathlib.Core.Path.{subst, ap, ◌∙◌}
use mathlib.Core.Bool.{Bool}
use mathlib.Core.Logic.{inl, inr}
use windsurf_to_api_go.Prelude.Tests.{Bool-cases}

abbrev pub Dict {ℓ} : Type ℓ → Type ℓ
Dict V = List (String × V)

module _ {ℓ} {V : Type ℓ} where
  unfoldable pub get : String → Dict V → Option V
  get k [] = none
  get k ((j, v) ∷ m) = if same j k then some v else get k m

  unfoldable pub put : String → V → Dict V → Dict V
  put k v [] = (k, v) ∷ []
  put k v ((j, w) ∷ m) = if same j k then (k, v) ∷ m else (j, w) ∷ put k v m

  unfoldable pub delete : String → Dict V → Dict V
  delete k [] = []
  delete k ((j, w) ∷ m) = if same j k then delete k m else (j, w) ∷ delete k m

  pub get-put :
      (k j : String) (v : V) (m : Dict V)
      → get j (put k v m) ≡ (if same k j then some v else get j m)
  unfolding get put
  get-put k j v [] = refl
  get-put k j v ((i, w) ∷ m) =
      ground (arith, same_iff k j, same_iff i k, same_iff i j, get-put k j v m)

  pub get-delete :
      (k j : String) (m : Dict V) → get j (delete k m) ≡ (if same k j then none else get j m)
  unfolding get delete
  get-delete k j [] = ground arith
  get-delete k j ((i, w) ∷ m) =
      ground (arith, same_iff k j, same_iff i k, same_iff i j, get-delete k j m)

  pub get-put_self : (k : String) (v : V) (m : Dict V) → get k (put k v m) ≡ some v
  get-put_self k v m = simp (get-put, same_refl)

  pub get-delete_self : (k : String) (m : Dict V) → get k (delete k m) ≡ none
  get-delete_self k m = simp (get-delete, same_refl)

  pub length-delete : (k : String) (m : Dict V) → length (delete k m) ≤ length m
  unfolding delete
  length-delete k [] = omega arith
  length-delete k ((i, w) ∷ m) = ground (arith, length-delete k m)

  pub length-put : (k : String) (v : V) (m : Dict V) → length (put k v m) ≤ length m + 1
  unfolding put
  length-put k v [] = omega arith
  length-put k v ((i, w) ∷ m) = ground (arith, length-put k v m)

  -- A delete of a present key drops an entry.
  pub length-delete_present :
      (k : String) (m : Dict V) (v : V) → get k m ≡ some v → length (delete k m) + 1 ≤ length m
  unfolding get delete
  length-delete_present k [] v h = cc
  length-delete_present k ((i, w) ∷ m) v h =
      ground (arith, length-delete k m, length-delete_present k m v)

-- No key stands twice, as in every Go map.
abbrev pub UniqueDict {ℓ} : {V : Type ℓ} → Dict V → Type ℓ
UniqueDict [] = Unit
UniqueDict ((k, v) ∷ m) = (get k m ≡ none) × UniqueDict m

abbrev pub filter_value {ℓ} : {V : Type ℓ} → (V → Bool) → Option V → Option V
filter_value test none = none
filter_value test (some v) = if test v then some v else none

module _ {ℓ} {V : Type ℓ} where
  pub put-UniqueDict : (k : String) (v : V) (m : Dict V) → UniqueDict m → UniqueDict (put k v m)
  unfolding put get
  put-UniqueDict k v [] u = (refl, tt)
  put-UniqueDict k v ((j, w) ∷ m) u = elim (Bool-cases (same j k)) [
    | inl e ↦ rw e (rw (← (same_iff j k).0 e) u.0, u.1)
    | inr e ↦
        rw e (rw get-put (ground (arith, same_iff k j, same_iff j k)), put-UniqueDict k v m u.1)
  ]

  get-delete_absent : (k j : String) (m : Dict V) → get j m ≡ none → get j (delete k m) ≡ none
  get-delete_absent k j m h = get-delete k j m ∙ ground arith

  pub delete-UniqueDict : (k : String) (m : Dict V) → UniqueDict m → UniqueDict (delete k m)
  unfolding delete
  delete-UniqueDict k [] u = tt
  delete-UniqueDict k ((j, w) ∷ m) u = elim (Bool-cases (same j k)) [
    | inl e ↦ rw e (delete-UniqueDict k m u.1)
    | inr e ↦ rw e (get-delete_absent k j m u.0, delete-UniqueDict k m u.1)
  ]

  get_absent : (j k : String) (m : Dict V) → get j m ≡ none → same j k ≡ true → get k m ≡ none
  get_absent j k m h e = subst (λ x. get x m ≡ none) ((same_iff j k).0 e) h

  -- A filter on the values is a filter on what is found.
  pub get-keep_if :
      (test : V → Bool) (k : String) (m : Dict V)
      → UniqueDict m
      → get k (keep_if (λ row. test row.1) m) ≡ filter_value test (get k m)
  unfolding get
  get-keep_if test k [] u = refl
  get-keep_if test k ((j, w) ∷ m) u =
      ground (arith, same_iff j k, get-keep_if test k m u.1, get_absent j k m u.0)

  pub keep_if-UniqueDict :
      (test : V → Bool) (m : Dict V) → UniqueDict m → UniqueDict (keep_if (λ row. test row.1) m)
  keep_if-UniqueDict test [] u = tt
  keep_if-UniqueDict test ((j, w) ∷ m) u = elim (Bool-cases (test w)) [
    | inl e ↦
        rw e (get-keep_if test j m u.1 ∙ ap (filter_value test) u.0, keep_if-UniqueDict test m u.1)
    | inr e ↦ rw e (keep_if-UniqueDict test m u.1)
  ]
