-- ===== src/Stats.antt =====
-- The counters of requests, internal/stats/stats.go. Counters are unbounded here: they count single
-- requests, tokens and milliseconds, far from 2 ^ 63. The cost in dollars, a sum of floats that nothing
-- else reads, is left out, as is the debounced write of the file.
pub mod Totals
pub mod Consistency
pub mod Percentiles
pub mod Snapshot
use Prim.Native.String.{slice, len}
use windsurf_to_api_go.Prelude.{
  ℕ, zero, suc, ◌+◌, ◌-◌, ◌*◌, ◌/◌, String, Bool, true, false, Option, none, some, List, [], ◌∷◌,
  ◌++◌, ◌==◌, leb, ltb, length, any, update_first, map, same, if◌then◌else◌,
}
use windsurf_to_api_go.Prelude.Lists.{last_of}
use windsurf_to_api_go.Prelude.Dict.{Dict}
use windsurf_to_api_go.Prelude.Dict
use windsurf_to_api_go.Prelude.Numbers.{show}
use windsurf_to_api_go.Prelude.Sorting.{sort_by, lower_key}

pub record ModelCounts : Type 0 where
  pub requests : ℕ
  pub success : ℕ
  pub errors : ℕ
  pub total_ms : ℕ
  pub avg_ms : ℕ
  pub p50_ms : ℕ
  pub p95_ms : ℕ
  pub input_tokens : ℕ
  pub output_tokens : ℕ
  pub first_at : ℕ
  pub first_ms : ℕ
  pub last_at : ℕ
  pub last_ms : ℕ
  pub recent : List ℕ

pub record AccountCounts : Type 0 where
  pub requests : ℕ
  pub success : ℕ
  pub errors : ℕ
  pub rate_limit_events : ℕ
  pub internal_error_events : ℕ
  pub quarantine_events : ℕ
  pub fallback_events : ℕ
  pub last_event_at : ℕ
  pub last_event_type : String

pub record HourBucket : Type 0 where
  pub hour : String
  pub requests : ℕ
  pub errors : ℕ

pub record InternalState : Type 0 where
  pub started_at : ℕ
  pub total_requests : ℕ
  pub success_count : ℕ
  pub error_count : ℕ
  pub total_input_tokens : ℕ
  pub total_output_tokens : ℕ
  pub upstream_status : Dict ℕ
  pub model_counts : Dict ModelCounts
  pub account_counts : Dict AccountCounts
  pub hourly_buckets : List HourBucket

-- One completed request, as the callers of `Record` describe it, with the time and the hour of the call.
pub record Completed : Type 0 where
  pub model : String
  pub success : Bool
  pub duration_ms : ℕ
  pub account_id : String
  pub input_tokens : ℕ
  pub output_tokens : ℕ
  pub upstream_status : ℕ
  pub now_ms : ℕ
  pub hour_key : String

-- `Reset`, and the state at the start.
unfoldable pub reset : ℕ → InternalState
reset now = record {
  started_at = now;
  total_requests = 0;
  success_count = 0;
  error_count = 0;
  total_input_tokens = 0;
  total_output_tokens = 0;
  upstream_status = [];
  model_counts = [];
  account_counts = [];
  hourly_buckets = [];
}

abbrev pub no_counts : ModelCounts
no_counts = record {
  requests = 0;
  success = 0;
  errors = 0;
  total_ms = 0;
  avg_ms = 0;
  p50_ms = 0;
  p95_ms = 0;
  input_tokens = 0;
  output_tokens = 0;
  first_at = 0;
  first_ms = 0;
  last_at = 0;
  last_ms = 0;
  recent = [];
}

abbrev pub no_account : AccountCounts
no_account = record {
  requests = 0;
  success = 0;
  errors = 0;
  rate_limit_events = 0;
  internal_error_events = 0;
  quarantine_events = 0;
  fallback_events = 0;
  last_event_at = 0;
  last_event_type = "";
}

abbrev pub or_zero_value {ℓ} : {A : Type ℓ} → A → Option A → A
or_zero_value zero_value none = zero_value
or_zero_value zero_value (some a) = a

-- One more where the test holds.
abbrev pub bump : Bool → ℕ → ℕ
bump true n = suc n
bump false n = n

abbrev pub status_key : ℕ → String
status_key status = if ltb 0 status then show status else "0"

abbrev pub failed : Completed → Bool
failed r = if r.success then false else true

-- The last 200 durations above zero.
abbrev keep_recent : ℕ → List ℕ → List ℕ
keep_recent duration recent =
    if ltb 0 duration
    then if ltb 200 (length (recent ++ duration ∷ []))
      then last_of 200 (recent ++ duration ∷ [])
      else recent ++ duration ∷ []
    else recent

unfoldable pub count_model : Completed → ModelCounts → ModelCounts
count_model r mc = record mc {
  first_at = if mc.first_at == 0 then r.now_ms else mc.first_at;
  first_ms = if mc.first_at == 0 then r.duration_ms else mc.first_ms;
  last_at = r.now_ms;
  last_ms = r.duration_ms;
  requests = suc mc.requests;
  success = bump r.success mc.success;
  errors = bump (failed r) mc.errors;
  total_ms = mc.total_ms + r.duration_ms;
  recent = keep_recent r.duration_ms mc.recent;
  input_tokens = mc.input_tokens + r.input_tokens;
  output_tokens = mc.output_tokens + r.output_tokens;
}

abbrev pub account_key : String → String
account_key id = if ltb 8 (len id) then slice id 0 8 else id

abbrev count_account : Completed → AccountCounts → AccountCounts
count_account r ac = record ac {
  requests = suc ac.requests;
  success = bump r.success ac.success;
  errors = bump (failed r) ac.errors;
}

unfoldable pub count_accounts : Completed → Dict AccountCounts → Dict AccountCounts
unfolding Dict.get Dict.put
count_accounts r counts =
    let key = account_key r.account_id in
    if same r.account_id ""
    then counts
    else Dict.put key (count_account r (or_zero_value no_account (Dict.get key counts))) counts

abbrev pub count_bucket : Completed → HourBucket → HourBucket
count_bucket r b = record b { requests = suc b.requests; errors = bump (failed r) b.errors }

abbrev pub is_hour : String → HourBucket → Bool
is_hour hour b = same b.hour hour

abbrev pub new_bucket : Completed → HourBucket
new_bucket r = count_bucket r (record { hour = r.hour_key; requests = 0; errors = 0 })

-- A new hour is appended, the oldest of more than 72 dropped, and the last one counted.
unfoldable pub count_hour : Completed → List HourBucket → List HourBucket
count_hour r buckets =
    if any (is_hour r.hour_key) buckets
    then update_first (is_hour r.hour_key) (count_bucket r) buckets
    else last_of 72 (buckets ++ new_bucket r ∷ [])

-- `Record`.
unfoldable pub record_request : Completed → InternalState → InternalState
unfolding count_model count_accounts count_hour Dict.get Dict.put show
record_request r s = record s {
  total_requests = suc s.total_requests;
  success_count = bump r.success s.success_count;
  error_count = bump (failed r) s.error_count;
  upstream_status =
      Dict.put (status_key r.upstream_status)
        (suc (or_zero_value 0 (Dict.get (status_key r.upstream_status) s.upstream_status)))
        s.upstream_status;
  total_input_tokens = s.total_input_tokens + r.input_tokens;
  total_output_tokens = s.total_output_tokens + r.output_tokens;
  model_counts =
      Dict.put r.model (count_model r (or_zero_value no_counts (Dict.get r.model s.model_counts)))
        s.model_counts;
  account_counts = count_accounts r s.account_counts;
  hourly_buckets = count_hour r s.hourly_buckets;
}
