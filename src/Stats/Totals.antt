-- ===== src/Stats/Totals.antt =====
-- How the counters of internal/stats/stats.go belong together.
use windsurf_to_api_go.Prelude.{ℕ, ◌+◌, ◌≡◌, String, Bool, true, false, [], ◌∷◌, arith, same_iff}
use windsurf_to_api_go.Prelude.Dict.{Dict}
use windsurf_to_api_go.Prelude.Dict
use windsurf_to_api_go.Stats.{ModelCounts, Completed, no_counts, or_zero_value, count_model, bump}

-- The sum over the values of a map.
abbrev pub sum_values {ℓ} : {V : Type ℓ} → (V → ℕ) → Dict V → ℕ
sum_values f [] = 0
sum_values f ((k, v) ∷ m) = f v + sum_values f m

pub sum_values-put {ℓ} :
    {V : Type ℓ} (f : V → ℕ) (k : String) (zero_value v : V) (m : Dict V)
    → f zero_value ≡ 0
    → sum_values f (Dict.put k v m) + f (or_zero_value zero_value (Dict.get k m))
      ≡ sum_values f m + f v
unfolding Dict.put Dict.get
sum_values-put f k zero_value v [] h = ground arith
sum_values-put f k zero_value v ((j, w) ∷ m) h =
    ground (arith, sum_values-put f k zero_value v m h, same_iff j k)

bump_add : (b : Bool) (m n : ℕ) → bump b m + n ≡ m + bump b n
bump_add true m n = omega arith
bump_add false m n = omega arith

-- A counter of the models that one request moves by what it moves the total.
pub model_step :
    (f : ModelCounts → ℕ) (b : Bool) (r : Completed) (m : Dict ModelCounts) (total : ℕ)
    → f no_counts ≡ 0
    → ((mc : ModelCounts) → f (count_model r mc) ≡ bump b (f mc))
    → sum_values f m ≡ total
    → sum_values f
        (Dict.put r.model (count_model r (or_zero_value no_counts (Dict.get r.model m))) m)
      ≡ bump b total
model_step f b r m total h step e =
    let old : ModelCounts = or_zero_value no_counts (Dict.get r.model m) in
    omega (
      arith,
      sum_values-put f r.model no_counts (count_model r old) m h,
      step old,
      bump_add b total (f old),
      e,
    )
