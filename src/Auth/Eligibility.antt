-- ===== src/Auth/Eligibility.antt =====
-- Which accounts `Acquire` may choose, said without its loop, and what one round of the loop does.
use windsurf_to_api_go.Prelude.{
  ℕ, ◌-◌, String, Bool, not, ◌&&◌, none, some, List, length, keep_if, contains, ltb, leb, arith,
  ◌≡◌, if◌then◌else◌,
}
use windsurf_to_api_go.Models.{Catalog}
use windsurf_to_api_go.Auth.Account.{Account}
use windsurf_to_api_go.Auth.Limits.{
  rpm_limit, rpm_window, prune_rpm, is_rate_limited, is_rate_limited_rw, drop_deadline,
  is_model_allowed,
}
use windsurf_to_api_go.Auth.Select.{consider, consider_budget, counts_for}

-- The requests of the minute before `now`.
unfoldable pub window_count : Account → ℕ → ℕ
window_count a now = length (keep_if (λ t. leb (now - rpm_window) t) a.rpm_history)

unfoldable pub is_eligible : Catalog → List String → String → ℕ → Account → Bool
is_eligible catalog tried model_key now a =
    counts_for catalog model_key a
    && not (contains a.api_key tried)
    && not (is_rate_limited a model_key now)
    && ltb (window_count a now) (rpm_limit a.tier)

module _ (catalog : Catalog) (tried : List String) (model_key : String) (now place : ℕ) where
  -- A round adds a candidate exactly for an eligible account.
  pub consider_cand :
      (a : Account)
      → (consider catalog tried model_key now place a).1 ≡ (
          if is_eligible catalog tried model_key now a
          then some (record {
            place = place;
            account = (consider catalog tried model_key now place a).0;
            used = window_count a now;
            limit = rpm_limit a.tier;
          })
          else none)
  unfolding consider consider_budget is_eligible counts_for is_rate_limited is_rate_limited_rw
      drop_deadline window_count prune_rpm is_model_allowed
  consider_cand a = ground arith
