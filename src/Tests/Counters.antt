-- ===== src/Tests/Counters.antt =====
-- The counters of requests on a few of them.
use windsurf_to_api_go.Prelude.{ℕ, Bool, true, false, List, [], ◌∷◌, ◌≡◌, ◌≤◌, refl, arith}
use windsurf_to_api_go.Prelude.Sorting.{sort_by, insert_by}
use windsurf_to_api_go.Stats.{ModelCounts, Completed, no_counts, reset}
use windsurf_to_api_go.Stats.Snapshot.{view_model, pct, at_or_last}
use windsurf_to_api_go.Stats.Consistency.{IsCounted, Event, completed, circuit, run, run-IsCounted}
use windsurf_to_api_go.Stats.Percentiles.{view_model-AtMost}

abbrev request : Bool → ℕ → ℕ → Completed
request success duration status = record {
  model = "gpt";
  success = success;
  duration_ms = duration;
  account_id = "0123abcdef";
  input_tokens = 3;
  output_tokens = 5;
  upstream_status = status;
  now_ms = 1000;
  hour_key = "2026-04-21T01:00:00Z";
}

empty-IsCounted : IsCounted (reset 7)
unfolding reset
empty-IsCounted = record {
  outcomes = refl;
  by_model = refl;
  success_by_model = refl;
  errors_by_model = refl;
  by_status = refl;
  hours = (ground arith, ground arith);
}

abbrev events : List Event
events =
    completed (request true 120 200)
    ∷ completed (request false 0 429)
    ∷ circuit "0123abcd" "rateLimit" 1001
    ∷ completed (request true 80 200)
    ∷ []

run-IsCounted_example : IsCounted (run events (reset 7))
run-IsCounted_example = run-IsCounted events (reset 7) empty-IsCounted

abbrev measured : ModelCounts
measured = record no_counts { recent = 300 ∷ 100 ∷ 200 ∷ [] }

view_model-AtMost_example :
    ((view_model measured).p50_ms ≤ (view_model measured).p95_ms)
    × ((view_model measured).p95_ms ≤ 300)
view_model-AtMost_example = view_model-AtMost measured 300 (ground arith)

median : (view_model measured).p50_ms ≡ 200
unfolding view_model pct at_or_last sort_by insert_by
median = refl
