-- ===== src/Web/Views/Overview/Totals.antt =====
-- web/src/views/Overview.vue: the rows of the status codes, their sum, and the units of sizes.
use windsurf_to_api_go.Prelude.{
  ℕ, ◌+◌, ◌≡◌, refl, ap, ◌∙◌, String, Bool, Option, List, [], ◌∷◌, map, arith,
}
use windsurf_to_api_go.Prelude.Dict.{Dict}
use windsurf_to_api_go.Prelude.Sorting.{
  sort_by, insert_by, higher, IsSortedBy, sort_by-IsSortedBy, higher_asym, higher_trans,
}
use windsurf_to_api_go.Web.Views.Overview.{OverviewPage}
use windsurf_to_api_go.Web.Views.Overview.Status.{
  StatusRow, status_row, statuses_of, status_rows, sum_counts, total_status_count,
}

-- The sum of a histogram.
abbrev pub histogram_sum : Dict ℕ → ℕ
histogram_sum [] = 0
histogram_sum ((code, n) ∷ rest) = n + histogram_sum rest

sum_counts-insert_by :
    (before : StatusRow → StatusRow → Bool) (r : StatusRow) (rows : List StatusRow)
    → sum_counts (insert_by before r rows) ≡ r.count + sum_counts rows
unfolding insert_by sum_counts
sum_counts-insert_by before r [] = refl
sum_counts-insert_by before r (q ∷ rows) = ground (arith, sum_counts-insert_by before r rows)

sum_counts-sort_by :
    (before : StatusRow → StatusRow → Bool) (rows : List StatusRow)
    → sum_counts (sort_by before rows) ≡ sum_counts rows
unfolding sort_by sum_counts
sum_counts-sort_by before [] = refl
sum_counts-sort_by before (r ∷ rows) =
    sum_counts-insert_by before r (sort_by before rows)
    ∙ ap (λ n. r.count + n) (sum_counts-sort_by before rows)

sum_counts-map :
    (number : String → Option ℕ) (h : Dict ℕ)
    → sum_counts (map (status_row number) h) ≡ histogram_sum h
unfolding sum_counts status_row
sum_counts-map number [] = refl
sum_counts-map number ((code, n) ∷ rest) = ap (λ m. n + m) (sum_counts-map number rest)

-- The rows of the status codes come with the larger counts first, and the total shown beside them is the
-- sum of the server's histogram.
pub total_status_count-histogram_sum :
    (number : String → Option ℕ) (s : OverviewPage)
    → IsSortedBy (higher (λ r. r.count)) (status_rows number s)
      × (total_status_count number s ≡ histogram_sum (statuses_of s.data_))
unfolding total_status_count status_rows
total_status_count-histogram_sum number s = (
  sort_by-IsSortedBy (higher (λ r. r.count)) (higher_asym (λ r. r.count))
      (higher_trans (λ r. r.count)) (map (status_row number) (statuses_of s.data_)),
  sum_counts-sort_by (higher (λ r. r.count)) (map (status_row number) (statuses_of s.data_))
      ∙ sum_counts-map number (statuses_of s.data_),
)
