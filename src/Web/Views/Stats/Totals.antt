-- ===== src/Web/Views/Stats/Totals.antt =====
-- web/src/views/Stats.vue: the bars of the hours and the join of the accounts.
use windsurf_to_api_go.Prelude.{
  ℕ, ◌≤◌, ◌≡◌, refl, String, Option, List, [], ◌∷◌, map, length, All, arith,
}
use windsurf_to_api_go.Prelude.Lists.{last_of, length-last_of}
use windsurf_to_api_go.Web.Views.Stats.{
  StatsPage, BucketRow, buckets, buckets_of, bucket_row, max_requests, max_count,
}

length-map {ℓ κ} :
    {A : Type ℓ} {B : Type κ} (f : A → B) (xs : List A) → length (map f xs) ≡ length xs
length-map f [] = refl
length-map f (x ∷ xs) = omega (arith, length-map f xs)

-- A bar of the chart, of a height relative to `top`.
abbrev pub Fits : ℕ → BucketRow → Type 0
Fits top b = b.requests ≤ top

Fits-larger :
    (top : ℕ) (more : ℕ) (rows : List BucketRow)
    → top ≤ more
    → All (Fits top) rows
    → All (Fits more) rows
Fits-larger top more [] h fits = tt
Fits-larger top more (b ∷ rows) h fits = (omega (arith, fits.0), Fits-larger top more rows h fits.1)

max_requests-Fits : (rows : List BucketRow) → All (Fits (max_requests rows)) rows
unfolding max_requests
max_requests-Fits [] = tt
max_requests-Fits (b ∷ rows) =
    (ground arith, Fits-larger (max_requests rows) _ rows (ground arith) (max_requests-Fits rows))

max_requests_positive : (rows : List BucketRow) → 1 ≤ max_requests rows
unfolding max_requests
max_requests_positive [] = omega arith
max_requests_positive (b ∷ rows) = ground (arith, max_requests_positive rows)

-- The chart has a bar for each of the last hours, as many as the range asks for at most, and no bar is
-- higher than the whole, which is never zero.
pub buckets-Fits :
    (local_hour : String → Option ℕ) (s : StatsPage)
    → (length (buckets local_hour s) ≤ s.range)
      × (All (Fits (max_count local_hour s)) (buckets local_hour s) × (1 ≤ max_count local_hour s))
unfolding buckets max_count
buckets-Fits local_hour s = (
  omega (
    arith,
    length-map (bucket_row local_hour) (last_of s.range (buckets_of s.data_)),
    length-last_of s.range (buckets_of s.data_),
  ),
  (max_requests-Fits (buckets local_hour s), max_requests_positive (buckets local_hour s)),
)
