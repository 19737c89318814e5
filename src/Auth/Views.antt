-- ===== src/Auth/Views.antt =====
-- The public view of the active rate limits, internal/auth/pool.go.
pub mod Agreement
use windsurf_to_api_go.Prelude.{
  ℕ, String, Bool, true, false, Option, none, some, List, [], ◌∷◌, map, same, ltb, if◌then◌else◌,
}
use windsurf_to_api_go.Prelude.Dict
use windsurf_to_api_go.Prelude.Dict.{Dict}
use windsurf_to_api_go.Auth.Account.{Account, Pool}

pub record RateLimitView : Type 0 where
  pub account_started : ℕ
  pub account_until : ℕ
  pub models : Dict ℕ
  pub model_started : Dict ℕ

abbrev pub or_zero : Option ℕ → ℕ
or_zero none = 0
or_zero (some t) = t

-- A nil `ModelRateStarted` gives no start; a missing key reads as 0.
unfoldable pub put_start : String → Option (Dict ℕ) → Dict ℕ → Dict ℕ
put_start k none starts = starts
put_start k (some started) starts = Dict.put k (or_zero (Dict.get k started)) starts

-- The loop over `ModelRateLimits`.
unfoldable pub view_models : ℕ → Option (Dict ℕ) → Dict ℕ → Dict ℕ × Dict ℕ → Dict ℕ × Dict ℕ
unfolding put_start
view_models now started [] acc = acc
view_models now started ((k, until) ∷ rest) (models, starts) = view_models now started rest (
    if ltb now until
    then (Dict.put k until models, put_start k started starts)
    else (models, starts))

unfoldable pub build_rl_view : Account → ℕ → RateLimitView
unfolding view_models
build_rl_view a now =
    let (models, starts) = view_models now a.model_rate_started a.model_rate_limits ([], []) in
    let active = ltb now a.rate_limited_until in
    record {
      account_started = if active then a.rate_limited_started else 0;
      account_until = if active then a.rate_limited_until else 0;
      models = models;
      model_started = starts;
    }

unfoldable pub rate_limit_view_in : ℕ → String → List Account → RateLimitView
unfolding build_rl_view
rate_limit_view_in now id [] = record {
  account_started = 0;
  account_until = 0;
  models = [];
  model_started = [];
}
rate_limit_view_in now id (a ∷ rest) =
    if same a.id id then build_rl_view a now else rate_limit_view_in now id rest

unfoldable pub rate_limit_view : ℕ → String → Pool → RateLimitView
unfolding rate_limit_view_in
rate_limit_view now id p = rate_limit_view_in now id p.accounts

-- Several accounts with one id share a key of the map: the last one wins.
unfoldable pub views_in : ℕ → List Account → Dict RateLimitView → Dict RateLimitView
unfolding build_rl_view
views_in now [] out = out
views_in now (a ∷ rest) out = views_in now rest (Dict.put a.id (build_rl_view a now) out)

unfoldable pub rate_limit_views : ℕ → Pool → Dict RateLimitView
unfolding views_in
rate_limit_views now p = views_in now p.accounts []
