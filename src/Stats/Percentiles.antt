-- ===== src/Stats/Percentiles.antt =====
-- The percentiles of internal/stats/stats.go.
use windsurf_to_api_go.Prelude.{
  ℕ, zero, suc, ◌*◌, ◌/◌, ◌≤◌, ◌≡◌, false, List, [], ◌∷◌, ltb, length, All, arith,
}
use windsurf_to_api_go.Prelude.Sorting.{
  lower_key, sort_by-All, IsSortedBy, sort_by-IsSortedBy, lower_asym, lower_trans,
}
use windsurf_to_api_go.Stats.{ModelCounts}
use windsurf_to_api_go.Stats.Snapshot.{at_or_last, pct, sorted_recent, view_model}

abbrev IsAscending : List ℕ → Type 0
IsAscending xs = IsSortedBy (lower_key (λ n. n)) xs

first_below :
    (x y i : ℕ) (xs : List ℕ) → All (λ z. ltb z x ≡ false) (y ∷ xs) → x ≤ at_or_last (y ∷ xs) i
unfolding at_or_last
first_below x y i [] below = ground (arith, below.0)
first_below x y zero (z ∷ rest) below = ground (arith, below.0)
first_below x y (suc i) (z ∷ rest) below = first_below x z i rest below.1

at_or_last_mono :
    (i j : ℕ) (xs : List ℕ) → IsAscending xs → i ≤ j → at_or_last xs i ≤ at_or_last xs j
unfolding at_or_last
at_or_last_mono i j [] h le = omega arith
at_or_last_mono i j (x ∷ []) h le = omega arith
at_or_last_mono zero zero (x ∷ y ∷ rest) h le = omega arith
at_or_last_mono zero (suc j) (x ∷ y ∷ rest) h le = first_below x y j rest h.0
at_or_last_mono (suc i) zero (x ∷ y ∷ rest) h le = absurd (omega arith)
at_or_last_mono (suc i) (suc j) (x ∷ y ∷ rest) h le =
    at_or_last_mono i j (y ∷ rest) h.1 (omega arith)

abbrev pub AtMost : ℕ → ℕ → Type 0
AtMost top duration = duration ≤ top

at_or_last_below : (top i : ℕ) (xs : List ℕ) → All (AtMost top) xs → at_or_last xs i ≤ top
unfolding at_or_last
at_or_last_below top i [] h = omega arith
at_or_last_below top i (x ∷ []) h = h.0
at_or_last_below top zero (x ∷ y ∷ rest) h = h.0
at_or_last_below top (suc i) (x ∷ y ∷ rest) h = at_or_last_below top i (y ∷ rest) h.1

half_first : (n : ℕ) → n * 1 / 2 ≤ n * 19 / 20
half_first n = omega arith

-- The median that the statistics show for a model is never above its 95th percentile, and that one never
-- above the longest of the durations that it is taken from.
pub view_model-AtMost :
    (mc : ModelCounts) (top : ℕ)
    → All (AtMost top) mc.recent
    → ((view_model mc).p50_ms ≤ (view_model mc).p95_ms) × ((view_model mc).p95_ms ≤ top)
unfolding view_model pct
view_model-AtMost mc top h = (
  at_or_last_mono (length (sorted_recent mc) * 1 / 2) (length (sorted_recent mc) * 19 / 20)
      (sorted_recent mc)
      (sort_by-IsSortedBy (lower_key (λ n. n)) (lower_asym (λ n. n)) (lower_trans (λ n. n))
        mc.recent)
      (half_first (length (sorted_recent mc))),
  at_or_last_below top (length (sorted_recent mc) * 19 / 20) (sorted_recent mc)
      (sort_by-All (lower_key (λ n. n)) (AtMost top) mc.recent h),
)
