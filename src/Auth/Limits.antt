-- ===== src/Auth/Limits.antt =====
-- Rate-limit windows and the per-minute budget of one account, internal/auth/pool.go.
use windsurf_to_api_go.Prelude.{
  ℕ, ◌+◌, ◌-◌, ◌*◌, ◌/◌, String, Bool, true, false, not, ◌&&◌, ◌||◌, Option, none, some, length,
  keep_if, any, contains, same, ltb, leb, ◌==◌, if◌then◌else◌,
}
use windsurf_to_api_go.Prelude.Dict
use windsurf_to_api_go.Models.{Catalog, is_tier_allowed}
use windsurf_to_api_go.Auth.Account.{Capability, Account}
use windsurf_to_api_go.Prelude.Dict.{Dict}

-- `tierRPM`, with 0 for a missing key, as a Go map read gives.
unfoldable pub tier_rpm : String → ℕ
tier_rpm tier =
    if same tier "pro"
    then 60
    else if same tier "free"
    then 10
    else if same tier "unknown"
    then 20
    else 0

-- The cap that `Acquire` and `AcquireByKey` compute: a tier outside the table counts as 20.
unfoldable pub rpm_limit : String → ℕ
unfolding tier_rpm
rpm_limit tier =
    let limit = tier_rpm tier in if limit == 0 && not (same tier "expired") then 20 else limit

-- A minute, in milliseconds.
abbrev pub rpm_window : ℕ
rpm_window = 60000

abbrev pub rate_limit_grace : ℕ
rate_limit_grace = 60000

abbrev pub five_minutes : ℕ
five_minutes = 300000

-- `EffectiveRateLimitWindow`: from a duration in nanoseconds, 0 for `d <= 0`, to milliseconds.
unfoldable pub effective_rate_limit_window : ℕ → ℕ
effective_rate_limit_window d =
    if leb d 0
    then rate_limit_grace
    else let ms = d / 1000000 in
      let ceil_min = (ms + 60000 - 1) / 60000 in ceil_min * 60000 + rate_limit_grace

-- `pruneRPM` keeps the requests of the last minute. Time stamps are at least 0, so a cutoff that
-- stops at 0 makes the same test as a negative one.
unfoldable pub prune_rpm : Account → ℕ → Account × ℕ
prune_rpm a now =
    let kept = keep_if (λ t. leb (now - rpm_window) t) a.rpm_history in
    (record a { rpm_history = kept }, length kept)

-- The test on one deadline of a map, `t, ok := m[k]; ok && t > now`.
unfoldable pub deadline_after : ℕ → Option ℕ → Bool
deadline_after now none = false
deadline_after now (some t) = ltb now t

unfoldable pub is_rate_limited : Account → String → ℕ → Bool
unfolding deadline_after
is_rate_limited a model_key now =
    if ltb now a.rate_limited_until
    then true
    else if not (same model_key "")
    then deadline_after now (Dict.get model_key a.model_rate_limits)
    else false

-- The expired entry of one model is dropped.
unfoldable pub drop_deadline : String → ℕ → Account → Option ℕ → Account × Bool
drop_deadline model_key now a none = (a, false)
drop_deadline model_key now a (some t) =
    if ltb now t
    then (a, true)
    else (record a { model_rate_limits = Dict.delete model_key a.model_rate_limits }, false)

unfoldable pub is_rate_limited_rw : Account → String → ℕ → Account × Bool
unfolding drop_deadline
is_rate_limited_rw a model_key now =
    if ltb now a.rate_limited_until
    then (a, true)
    else if not (same model_key "")
    then drop_deadline model_key now a (Dict.get model_key a.model_rate_limits)
    else (a, false)

unfoldable pub is_model_allowed : Catalog → Account → String → Bool
is_model_allowed catalog a model_key =
    if not (is_tier_allowed catalog a.tier model_key)
    then false
    else not (contains model_key a.blocked_models)

-- `caps[m].OK`: a missing key reads as a zero `Capability`.
unfoldable pub works : Dict Capability → String → Bool
works caps m = elim (Dict.get m caps) [ none ↦ false | some c ↦ c.ok ]

unfoldable pub infer_tier : Dict Capability → String
unfolding works
infer_tier caps =
    if works caps "claude-opus-4.6" || works caps "claude-sonnet-4.6"
    then "pro"
    else if works caps "gemini-2.5-flash" || works caps "gpt-4o-mini"
    then "free"
    else if ltb 0 (length caps) && not (any (λ row. row.1.ok) caps)
    then "expired"
    else "unknown"
