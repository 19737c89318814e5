-- ===== src/Tests/Pool.antt =====
-- The account pool on concrete accounts.
use mathlib.Core.List.{Memᴰ}
use windsurf_to_api_go.Prelude.{
  ℕ, ◌≤◌, String, true, false, not, ◌&&◌, ◌||◌, none, some, [], ◌∷◌, All, any, find, arith, ◌≡◌,
  ◌≢◌, ◌↔◌, ◌⊎◌, inr, refl, contains, ltb,
}
use windsurf_to_api_go.Models.{is_present, is_tier_allowed}
use windsurf_to_api_go.Prelude.Dict
use windsurf_to_api_go.Auth.Account.{Account, Pool, save_locked}
use windsurf_to_api_go.Auth.Limits.{
  is_rate_limited_rw, rpm_limit, is_model_allowed, prune_rpm, effective_rate_limit_window,
  is_rate_limited,
}
use windsurf_to_api_go.Auth.Select.{less, acquire, is_all_rate_limited, selected, counts_for}
use windsurf_to_api_go.Auth.Signals.{has_key, mark_rate_limited}
use windsurf_to_api_go.Auth.Eligibility.{is_eligible}
use windsurf_to_api_go.Auth.Acquire.{acquire-eq-none_iff, acquire-best, is_preferred}
use windsurf_to_api_go.Auth.Quarantine.{mark_rate_limited-acquire}
use windsurf_to_api_go.Auth.AllLimited.{
  is_all_rate_limited-answer, is_all_rate_limited-wait, free_now,
}
use windsurf_to_api_go.Auth.Breaker.{
  auth_error, run_reports, errors_in_a_row, Tracks, run_reports-Tracks,
}
use windsurf_to_api_go.Auth.Drought.{
  is_drought_mode, is_model_blocked_by_drought, drought_free_models,
}
use windsurf_to_api_go.Auth.Drought.Threshold.{
  is_known, has_quota, is_drought_mode-answer, is_model_blocked-answer,
}
use windsurf_to_api_go.Auth.Views.{build_rl_view}
use windsurf_to_api_go.Auth.Views.Agreement.{build_rl_view-agrees}
use windsurf_to_api_go.Tests.Data.{catalog, busy, idle, off, pool, quota}

acquire-eq-none_iff_example :
    ((acquire catalog ("k1" ∷ []) "claude-opus" 1000000 pool).1 ≡ none)
    ↔ (any (is_eligible catalog ("k1" ∷ []) "claude-opus" 1000000) (pool.accounts) ≡ false)
acquire-eq-none_iff_example = acquire-eq-none_iff catalog ("k1" ∷ []) "claude-opus" 1000000 pool

-- For a model of the free tier both accounts are eligible, and the idle one goes first.
acquire-best_example :
    (a : Account) × Memᴰ a (pool.accounts)
    × (is_eligible catalog [] "gpt-4o-mini" 1000000 a ≡ true)
    × (selected idle ≡ selected a)
    × All
        (λ b. (is_eligible catalog [] "gpt-4o-mini" 1000000 b && is_preferred 1000000 b a) ≡ false)
        (pool.accounts)
unfolding acquire is_rate_limited_rw Dict.get rpm_limit is_model_allowed is_tier_allowed prune_rpm
    less
acquire-best_example = acquire-best catalog [] "gpt-4o-mini" 1000000 pool {sel = selected idle} refl

-- After a mark of the first key for the model, the free model is served by the second account.
mark_rate_limited-acquire_example : ◌≢◌ {A = String} "k2" "k1"
unfolding acquire is_rate_limited_rw Dict.get rpm_limit is_model_allowed is_tier_allowed prune_rpm
    less mark_rate_limited save_locked effective_rate_limit_window Dict.put
mark_rate_limited-acquire_example =
    mark_rate_limited-acquire catalog [] "gpt-4o-mini" true 1000000 "k1" 30000000000 "gpt-4o-mini"
      pool [] 1010000 {sel = selected idle} (refl, (refl, (refl, tt))) (inr refl) (omega arith) refl

is_all_rate_limited-answer_example : (is_all_rate_limited catalog "claude-opus" 1000000 pool).0 ≡ (
    any (counts_for catalog "claude-opus") (pool.accounts)
    && not (any (free_now catalog "claude-opus" 1000000) (pool.accounts)))
is_all_rate_limited-answer_example = is_all_rate_limited-answer catalog "claude-opus" 1000000 pool

-- Both active accounts are inside a window: the idle one leaves its window first.
abbrev limited : Pool
limited = record pool {
  accounts =
      record busy { rate_limited_until = 1090000 }
      ∷ record idle { model_rate_limits = ("gpt-4o-mini", 1030000) ∷ [] }
      ∷ off
      ∷ [];
}

is_all_rate_limited-wait_example :
    (1000 ≤ 30000)
    × ((◌≡◌ {A = ℕ} 30000 1000)
        ⊎ All
            (λ a.
              (not (counts_for catalog "gpt-4o-mini" a) || is_rate_limited a "gpt-4o-mini" 1029999)
              ≡ true)
            (limited.accounts))
unfolding is_all_rate_limited is_model_allowed is_tier_allowed Dict.get is_rate_limited
is_all_rate_limited-wait_example =
    is_all_rate_limited-wait catalog "gpt-4o-mini" 1000000 limited 30000 1029999 refl (omega arith)

run_reports-Tracks_example :
    (b : Account) × (find
        (has_key "k1")
        ((run_reports "k1" (auth_error ∷ auth_error ∷ auth_error ∷ []) pool).accounts)
      ≡ some b)
    × Tracks (errors_in_a_row 0 (auth_error ∷ auth_error ∷ auth_error ∷ [])) b
run_reports-Tracks_example =
    run_reports-Tracks "k1" (auth_error ∷ auth_error ∷ auth_error ∷ []) pool busy 0 refl
      (record { count = refl; status = refl })

-- One account whose quotas are below the threshold, and one whose quota is not known.
abbrev dry : Pool
dry = record pool { accounts = record busy { credits = some (quota 40000 20000) } ∷ idle ∷ [] }

is_drought_mode-answer_example :
    is_drought_mode dry ≡ (any is_known (dry.accounts) && not (any has_quota (dry.accounts)))
is_drought_mode-answer_example = is_drought_mode-answer dry

is_model_blocked-answer_example : is_model_blocked_by_drought dry "claude-opus" ≡ (
    any is_known (dry.accounts)
    && not (any has_quota (dry.accounts))
    && not (contains "claude-opus" drought_free_models))
is_model_blocked-answer_example = is_model_blocked-answer dry "claude-opus"

abbrev limited_for_model : Account
limited_for_model = record idle { model_rate_limits = ("gpt-4o-mini", 1030000) ∷ [] }

build_rl_view-agrees_example : is_rate_limited limited_for_model "gpt-4o-mini" 1000000 ≡ (
    ltb 0 ((build_rl_view limited_for_model 1000000).account_until)
    || is_present (Dict.get "gpt-4o-mini" ((build_rl_view limited_for_model 1000000).models)))
unfolding Dict.get
build_rl_view-agrees_example =
    build_rl_view-agrees limited_for_model "gpt-4o-mini" 1000000 (refl, tt) refl
