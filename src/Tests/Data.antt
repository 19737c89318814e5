-- ===== src/Tests/Data.antt =====
-- The concrete pool that the tests share: three accounts of three tiers.
use windsurf_to_api_go.Prelude.{ℕ, String, false, none, [], ◌∷◌}
use windsurf_to_api_go.Models.{Catalog}
use windsurf_to_api_go.Auth.Account.{Account, Credits, Pool, status_active, status_disabled}

abbrev pub catalog : Catalog
catalog =
    (
      "gpt-4o-mini",
      record { name = "gpt-4o-mini"; provider = "openai"; enum = 109; model_uid = ""; credit = 0 },
    )
    ∷ (
      "claude-opus",
      record {
        name = "claude-opus";
        provider = "anthropic";
        enum = 0;
        model_uid = "claude-opus";
        credit = 400;
      },
    )
    ∷ []

abbrev pub account : String → String → Account
account key tier = record {
  id = "id";
  email = "user@example.com";
  api_key = key;
  api_server_url = "";
  method = "api_key";
  status = status_active;
  added_at = 1;
  tier = tier;
  tier_manual = false;
  capabilities = [];
  last_probed = 0;
  credits = none;
  blocked_models = [];
  refresh_token = "";
  id_token = "";
  rate_limited_until = 0;
  rate_limited_started = 0;
  model_rate_limits = [];
  model_rate_started = none;
  last_used = 0;
  error_count = 0;
  internal_error_streak = 0;
  rpm_history = [];
}

-- A pro account with two requests in the last minute, a free one, and one that an operator disabled.
abbrev pub busy : Account
busy = record (account "k1" "pro") { rpm_history = 990000 ∷ 995000 ∷ []; last_used = 995000 }

abbrev pub idle : Account
idle = account "k2" "free"

abbrev pub off : Account
off = record (account "k3" "pro") {
  status = status_disabled;
  error_count = 1;
  internal_error_streak = 1;
}

abbrev pub pool : Pool
pool = record { accounts = busy ∷ idle ∷ off ∷ []; saved = none; last_save_err = false }

abbrev pub quota : ℕ → ℕ → Credits
quota daily weekly = record {
  plan_name = "Pro";
  daily_percent = daily;
  weekly_percent = weekly;
  daily_reset_at = 0;
  weekly_reset_at = 0;
  fetched_at = 0;
  last_error = "";
}
