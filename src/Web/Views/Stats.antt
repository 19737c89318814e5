-- ===== src/Web/Views/Stats.antt =====
-- web/src/views/Stats.vue: the state of the page, its handlers and its rows.
pub mod Columns
pub mod Totals
use Prim.Native.String.{◌++◌ as ◌<>◌}
use windsurf_to_api_go.Prelude.{
  ℕ, ◌+◌, ◌-◌, ◌*◌, String, Bool, true, false, Option, none, some, List, [], ◌∷◌, ◌==◌, ltb, leb,
  map, same, if◌then◌else◌,
}
use windsurf_to_api_go.Prelude.Lists.{last_of}
use windsurf_to_api_go.Prelude.Codes.{Codes}
use windsurf_to_api_go.Prelude.Dict.{Dict}
use windsurf_to_api_go.Prelude.Dict
use windsurf_to_api_go.Prelude.Numbers.{show, fixed_one, fixed_two, pad_two}
use windsurf_to_api_go.Prelude.Sorting.{sort_by, higher}
use windsurf_to_api_go.Prelude.Texts.{is_blank}
use windsurf_to_api_go.Web.Request.{toast}
use windsurf_to_api_go.Web.Api.Call.{Reply, resolved, rejected}
use windsurf_to_api_go.Web.Api.Calls.{get_stats, reset_stats, list_accounts, Success}
use windsurf_to_api_go.Web.Api.Types.Accounts.{AccountRow, AccountsResponse}
use windsurf_to_api_go.Web.Api.Types.Stats.{
  StatsHourBucket, StatsModelCounts, StatsAccountCounts, StatsPayload,
}
use windsurf_to_api_go.Web.Views.Page.{Run, sent, succeeds, toasts, say, attempt, or_none, or_value}

pub record StatsPage : Type 0 where
  pub loading : Bool
  pub data_ : Option StatsPayload
  pub accounts : List AccountRow
  pub range : ℕ

-- A failure of the list of accounts counts as an empty list.
abbrev accounts_of : Reply AccountsResponse → List AccountRow
accounts_of (resolved a) = or_none a.accounts
accounts_of (rejected message) = []

unfoldable pub load : Reply StatsPayload → Reply AccountsResponse → StatsPage → Run StatsPage
unfolding get_stats list_accounts
load stats accounts s =
    let r =
      attempt get_stats stats "加载统计失败"
        (λ d. (record s { data_ = some d; accounts = accounts_of accounts }, [])) s in
    (record (r.0) { loading = false }, sent list_accounts ∷ r.1)

unfoldable pub on_reset :
    Reply Success → Reply StatsPayload → Reply AccountsResponse → StatsPage → Run StatsPage
unfolding reset_stats load
on_reset reset stats accounts s =
    attempt reset_stats reset "重置失败" (λ a. say (succeeds "统计已重置") (load stats accounts s)) s

pub record BucketRow : Type 0 where
  pub key : String
  pub label : String
  pub requests : ℕ
  pub errors : ℕ
  pub success : ℕ

-- `local_hour` is the hour of `new Date(h)` in the viewer's zone, if the text is a date.
unfoldable pub hour_label : (String → Option ℕ) → String → String
unfolding pad_two
hour_label local_hour h =
    if is_blank h then "" else elim (local_hour h) [ none ↦ h | some hour ↦ pad_two hour <> ":00" ]

abbrev pub bucket_row : (String → Option ℕ) → StatsHourBucket → BucketRow
bucket_row local_hour b = record {
  key = b.hour;
  label = hour_label local_hour b.hour;
  requests = b.requests;
  errors = b.errors;
  success = b.requests - b.errors;
}

abbrev pub buckets_of : Option StatsPayload → List StatsHourBucket
buckets_of none = []
buckets_of (some d) = d.hourly_buckets

unfoldable pub buckets : (String → Option ℕ) → StatsPage → List BucketRow
unfolding hour_label
buckets local_hour s = map (bucket_row local_hour) (last_of s.range (buckets_of s.data_))

abbrev pub larger : ℕ → ℕ → ℕ
larger m n = if ltb m n then n else m

unfoldable pub max_requests : List BucketRow → ℕ
max_requests [] = 1
max_requests (b ∷ rows) = larger b.requests (max_requests rows)

unfoldable pub max_count : (String → Option ℕ) → StatsPage → ℕ
unfolding max_requests buckets
max_count local_hour s = max_requests (buckets local_hour s)

abbrev rate_of : StatsPayload → String
rate_of d =
    if d.total_requests == 0 then "0.0" else fixed_one (100 * d.success_count) d.total_requests

unfoldable pub success_rate : StatsPage → String
unfolding fixed_one
success_rate s = elim (s.data_) [ none ↦ "0.0" | some d ↦ rate_of d ]

unfoldable pub fmt_ms : Option ℕ → String
unfolding show fixed_one fixed_two
fmt_ms none = "—"
fmt_ms (some n) =
    if n == 0
    then "0 ms"
    else if leb 10000 n
    then fixed_one n 1000 <> " s"
    else if leb 1000 n
    then fixed_two n 1000 <> " s"
    else show n <> " ms"

-- The month, the day, the hour and the minute of a time in the viewer's zone.
pub record LocalTime : Type 0 where
  pub month : ℕ
  pub date : ℕ
  pub hours : ℕ
  pub minutes : ℕ

unfoldable pub fmt_ts : (ℕ → LocalTime) → Option ℕ → String
unfolding pad_two
fmt_ts local_time none = "—"
fmt_ts local_time (some n) =
    let d = local_time n in
    if n == 0
    then "—"
    else pad_two d.month
      <> "-"
      <> pad_two d.date
      <> " "
      <> pad_two d.hours
      <> ":"
      <> pad_two d.minutes

pub record ModelRow : Type 0 where
  pub model : String
  pub model_id : String
  pub first_at : ℕ
  pub first_ms : ℕ
  pub last_at : ℕ
  pub last_ms : ℕ
  pub requests : ℕ
  pub success : ℕ
  pub errors : ℕ
  pub avg_ms : ℕ
  pub p50_ms : ℕ
  pub p95_ms : ℕ
  pub rate : String

abbrev rate_text : ℕ → ℕ → String
rate_text success requests =
    if ltb 0 requests then fixed_one (100 * success) requests <> "%" else "—"

-- `display` is `displayModelName`.
abbrev model_row : (String → String) → String × StatsModelCounts → ModelRow
model_row display entry =
    let v = entry.1 in
    record {
      model = display entry.0;
      model_id = entry.0;
      first_at = or_value 0 v.first_at;
      first_ms = or_value 0 v.first_ms;
      last_at = or_value 0 v.last_at;
      last_ms = or_value 0 v.last_ms;
      requests = v.requests;
      success = v.success;
      errors = v.errors;
      avg_ms = v.avg_ms;
      p50_ms = v.p50_ms;
      p95_ms = v.p95_ms;
      rate = rate_text v.success v.requests;
    }

abbrev pub models_of : Option StatsPayload → Dict StatsModelCounts
models_of none = []
models_of (some d) = d.model_counts

unfoldable pub model_rows : (String → String) → StatsPage → List ModelRow
unfolding sort_by fixed_one
model_rows display s =
    sort_by (higher (λ r. r.requests)) (map (model_row display) (models_of s.data_))

pub record AccountStats : Type 0 where
  pub id : String
  pub email : String
  pub requests : ℕ
  pub success : ℕ
  pub errors : ℕ
  pub rate : String

-- `byId`: of two accounts with one id the later stays.
unfoldable pub by_id : List AccountRow → Dict AccountRow → Dict AccountRow
unfolding Dict.put
by_id [] m = m
by_id (a ∷ rest) m = by_id rest (Dict.put a.id a m)

abbrev account_stats : Dict AccountRow → String × StatsAccountCounts → AccountStats
account_stats accounts entry =
    let v = entry.1 in
    record {
      id = entry.0;
      email = elim (Dict.get entry.0 accounts) [ none ↦ "—（账号已删除）" | some a ↦ a.email ];
      requests = v.requests;
      success = v.success;
      errors = v.errors;
      rate = rate_text v.success v.requests;
    }

abbrev pub account_counts_of : Option StatsPayload → Dict StatsAccountCounts
account_counts_of none = []
account_counts_of (some d) = d.account_counts

unfoldable pub account_rows : StatsPage → List AccountStats
unfolding sort_by by_id Dict.get fixed_one
account_rows s =
    sort_by (higher (λ r. r.requests))
      (map (account_stats (by_id s.accounts [])) (account_counts_of s.data_))
