-- ===== src/Stats/Consistency.antt =====
-- The counters of internal/stats/stats.go over any sequence of requests, events and resets.
use windsurf_to_api_go.Prelude.{
  ℕ, zero, suc, ◌+◌, ◌-◌, ◌≤◌, ◌≡◌, refl, String, true, List, [], ◌∷◌, ◌++◌, length, drop, any,
  update_first, length-update_first, arith, same, ◌||◌, Bool-cases, inl, inr,
}
use windsurf_to_api_go.Prelude.Lists.{length-last_of}
use windsurf_to_api_go.Prelude.Dict.{Dict}
use windsurf_to_api_go.Prelude.Dict
use windsurf_to_api_go.Stats.{
  HourBucket, InternalState, Completed, or_zero_value, count_model, count_bucket, new_bucket,
  is_hour, count_hour, record_request, reset, bump, failed, status_key,
}
use windsurf_to_api_go.Stats.Snapshot.{record_circuit_event}
use windsurf_to_api_go.Stats.Totals.{sum_values, sum_values-put, model_step}

abbrev pub bucket_sum : List HourBucket → ℕ
bucket_sum [] = 0
bucket_sum (b ∷ buckets) = b.requests + bucket_sum buckets

bucket_sum-drop :
    (k : ℕ) (buckets : List HourBucket) → bucket_sum (drop k buckets) ≤ bucket_sum buckets
bucket_sum-drop zero buckets = omega arith
bucket_sum-drop (suc k) [] = omega arith
bucket_sum-drop (suc k) (b ∷ buckets) = omega (arith, bucket_sum-drop k buckets)

bucket_sum-append :
    (r : Completed) (buckets : List HourBucket)
    → bucket_sum (buckets ++ new_bucket r ∷ []) ≡ suc (bucket_sum buckets)
bucket_sum-append r [] = refl
bucket_sum-append r (b ∷ buckets) = omega (arith, bucket_sum-append r buckets)

bucket_sum-update_first :
    (r : Completed) (buckets : List HourBucket)
    → bucket_sum (update_first (is_hour r.hour_key) (count_bucket r) buckets)
      ≤ suc (bucket_sum buckets)
bucket_sum-update_first r [] = omega arith
bucket_sum-update_first r (b ∷ buckets) = ground (arith, bucket_sum-update_first r buckets)

abbrev BucketsFit : List HourBucket → ℕ → Type 0
BucketsFit buckets total = (length buckets ≤ 72) × (bucket_sum buckets ≤ total)

count_hour-BucketsFit :
    (r : Completed) (buckets : List HourBucket) (total : ℕ)
    → BucketsFit buckets total
    → BucketsFit (count_hour r buckets) (suc total)
unfolding count_hour
count_hour-BucketsFit r buckets total h = elim (Bool-cases (any (is_hour r.hour_key) buckets)) [
  | inl e ↦ rw e (
    omega (arith, h.0, length-update_first (is_hour r.hour_key) (count_bucket r) buckets),
    omega (arith, h.1, bucket_sum-update_first r buckets),
  )
  | inr e ↦ rw e (
    length-last_of 72 (buckets ++ new_bucket r ∷ []),
    omega (
      arith,
      h.1,
      bucket_sum-append r buckets,
      bucket_sum-drop (length (buckets ++ new_bucket r ∷ []) - 72) (buckets ++ new_bucket r ∷ []),
    ),
  )
]

-- The counters belong together: the requests are those that succeeded and those that failed, as many as
-- the models and the status codes count, and not fewer than the last 72 hours do.
pub record IsCounted (s : InternalState) : Type 0 where
  pub outcomes : s.success_count + s.error_count ≡ s.total_requests
  pub by_model : sum_values (λ mc. mc.requests) s.model_counts ≡ s.total_requests
  pub success_by_model : sum_values (λ mc. mc.success) s.model_counts ≡ s.success_count
  pub errors_by_model : sum_values (λ mc. mc.errors) s.model_counts ≡ s.error_count
  pub by_status : sum_values (λ n. n) s.upstream_status ≡ s.total_requests
  pub hours : BucketsFit s.hourly_buckets s.total_requests

outcome :
    (r : Completed) (success errors total : ℕ)
    → success + errors ≡ total
    → bump r.success success + bump (failed r) errors ≡ suc total
outcome r success errors total h = elim (Bool-cases r.success) [
  | inl e ↦ rw e (omega (arith, h))
  | inr e ↦ rw e (omega (arith, h))
]

status_step :
    (key : String) (m : Dict ℕ) (total : ℕ)
    → sum_values (λ n. n) m ≡ total
    → sum_values (λ n. n) (Dict.put key (suc (or_zero_value 0 (Dict.get key m))) m) ≡ suc total
status_step key m total h =
    let old : ℕ = or_zero_value 0 (Dict.get key m) in
    omega (arith, sum_values-put (λ n. n) key 0 (suc old) m refl, h)

record_request-IsCounted :
    (r : Completed) (s : InternalState) → IsCounted s → IsCounted (record_request r s)
unfolding record_request count_model
record_request-IsCounted r s h = record {
  outcomes = outcome r s.success_count s.error_count s.total_requests h.outcomes;
  by_model =
      model_step (λ mc. mc.requests) true r s.model_counts s.total_requests refl (λ mc. refl)
        h.by_model;
  success_by_model =
      model_step (λ mc. mc.success) r.success r s.model_counts s.success_count refl (λ mc. refl)
        h.success_by_model;
  errors_by_model =
      model_step (λ mc. mc.errors) (failed r) r s.model_counts s.error_count refl (λ mc. refl)
        h.errors_by_model;
  by_status =
      status_step (status_key r.upstream_status) s.upstream_status s.total_requests h.by_status;
  hours = count_hour-BucketsFit r s.hourly_buckets s.total_requests h.hours;
}

pub data Event : Type 0 where
  completed : Completed → Event
  circuit : String → String → ℕ → Event
  cleared : ℕ → Event

unfoldable pub step : Event → InternalState → InternalState
unfolding record_request record_circuit_event reset
step (completed r) s = record_request r s
step (circuit account kind now) s = record_circuit_event account kind now s
step (cleared now) s = reset now

unfoldable pub run : List Event → InternalState → InternalState
unfolding step
run [] s = s
run (e ∷ events) s = run events (step e s)

circuit-IsCounted :
    (account kind : String) (now : ℕ) (s : InternalState)
    → IsCounted s
    → IsCounted (record_circuit_event account kind now s)
unfolding record_circuit_event
circuit-IsCounted account kind now s h = elim (Bool-cases (same account "" || same kind "")) [
  | inl e ↦ rw (record_circuit_event, e) h
  | inr e ↦
      rw (record_circuit_event, e)
        (record {
          outcomes = h.outcomes;
          by_model = h.by_model;
          success_by_model = h.success_by_model;
          errors_by_model = h.errors_by_model;
          by_status = h.by_status;
          hours = h.hours;
        })
]

step-IsCounted : (e : Event) (s : InternalState) → IsCounted s → IsCounted (step e s)
unfolding step reset
step-IsCounted (completed r) s h = record_request-IsCounted r s h
step-IsCounted (circuit account kind now) s h = circuit-IsCounted account kind now s h
step-IsCounted (cleared now) s h = record {
  outcomes = refl;
  by_model = refl;
  success_by_model = refl;
  errors_by_model = refl;
  by_status = refl;
  hours = (omega arith, omega arith);
}

-- Over any sequence of requests, events of accounts and resets the counters belong together: successes
-- and failures add up to the requests, in all and over the models, as do the status codes, and the hours,
-- at most 72, count no more than the requests.
pub run-IsCounted :
    (events : List Event) (s : InternalState) → IsCounted s → IsCounted (run events s)
unfolding run
run-IsCounted [] s h = h
run-IsCounted (e ∷ events) s h = run-IsCounted events (step e s) (step-IsCounted e s h)
