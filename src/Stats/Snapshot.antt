-- ===== src/Stats/Snapshot.antt =====
-- The events of single accounts and the view of the counters, internal/stats/stats.go.
use windsurf_to_api_go.Prelude.{
  ℕ, zero, suc, ◌*◌, ◌/◌, String, List, [], ◌∷◌, ltb, length, map, same, if◌then◌else◌, ◌||◌,
}
use windsurf_to_api_go.Prelude.Dict.{Dict}
use windsurf_to_api_go.Prelude.Dict
use windsurf_to_api_go.Prelude.Sorting.{sort_by, lower_key}
use windsurf_to_api_go.Stats.{
  ModelCounts, AccountCounts, InternalState, account_key, no_account, or_zero_value,
}

-- The kinds of events; another one only leaves its time and its name.
unfoldable pub count_event : String → ℕ → AccountCounts → AccountCounts
count_event kind now ac =
    let seen = record ac { last_event_at = now; last_event_type = kind } in
    if same kind "rateLimit"
    then record seen { rate_limit_events = suc ac.rate_limit_events }
    else if same kind "internalError"
    then record seen { internal_error_events = suc ac.internal_error_events }
    else if same kind "quarantine"
    then record seen { quarantine_events = suc ac.quarantine_events }
    else if same kind "fallback"
    then record seen { fallback_events = suc ac.fallback_events }
    else seen

-- `RecordCircuitEvent`.
unfoldable pub record_circuit_event : String → String → ℕ → InternalState → InternalState
unfolding count_event Dict.get Dict.put
record_circuit_event account_id kind now s =
    let key = account_key account_id in
    if same account_id "" || same kind "" then s else record s {
      account_counts =
          Dict.put key
            (count_event kind now (or_zero_value no_account (Dict.get key s.account_counts)))
            s.account_counts;
    }

-- The element at a place, and the last one from there on.
unfoldable pub at_or_last : List ℕ → ℕ → ℕ
at_or_last [] i = 0
at_or_last (x ∷ []) i = x
at_or_last (x ∷ y ∷ rest) zero = x
at_or_last (x ∷ y ∷ rest) (suc i) = at_or_last (y ∷ rest) i

-- `pct`, for `num / den`: `int(float64(n) * p)` is `n * num / den` for the lengths up to 200.
unfoldable pub pct : List ℕ → ℕ → ℕ → ℕ
unfolding at_or_last
pct sorted num den = at_or_last sorted (length sorted * num / den)

abbrev pub sorted_recent : ModelCounts → List ℕ
sorted_recent mc = sort_by (lower_key (λ n. n)) mc.recent

unfoldable pub view_model : ModelCounts → ModelCounts
unfolding pct sort_by
view_model mc = record mc {
  avg_ms = if ltb 0 mc.requests then mc.total_ms / mc.requests else mc.avg_ms;
  p50_ms = pct (sorted_recent mc) 1 2;
  p95_ms = pct (sorted_recent mc) 19 20;
}

-- `Get`: a copy of the state with the views of the models.
unfoldable pub get : InternalState → InternalState
unfolding view_model
get s = record s { model_counts = map (λ row. (row.0, view_model row.1)) s.model_counts }
