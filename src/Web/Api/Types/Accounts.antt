-- ===== src/Web/Api/Types/Accounts.antt =====
-- The types of web/src/api/types.ts for the accounts. The unions of texts are not checked when an answer is read, so they are texts here.
use windsurf_to_api_go.Prelude.{ℕ, String, Bool, Option, List}
use windsurf_to_api_go.Prelude.Dict.{Dict}
use windsurf_to_api_go.Prelude.Numbers.{ℤ, Fraction}

abbrev pub AccountTier : Type 0
AccountTier = String

abbrev pub AccountStatus : Type 0
AccountStatus = String

pub record AccountCapability : Type 0 where
  pub model_key : String
  pub ok : Bool
  pub latency : Option ℕ
  pub error : Option String

pub record AccountCredits : Type 0 where
  pub plan_name : Option String
  pub daily_percent : Option Fraction
  pub weekly_percent : Option Fraction
  pub daily_reset_at : Option ℕ
  pub weekly_reset_at : Option ℕ
  pub fetched_at : Option ℕ
  pub last_error : Option String

pub record AccountRow : Type 0 where
  pub id : String
  pub email : String
  pub method : String
  pub status : AccountStatus
  pub added_at : String
  pub key_prefix : String
  pub tier : AccountTier
  pub tier_manual : Option Bool
  pub capabilities : Option (List AccountCapability)
  pub last_probed : Option ℕ
  pub credits : Option AccountCredits
  pub blocked_models : List String
  pub available_count : ℕ
  pub tier_model_count : ℕ
  pub rpm_used : ℕ
  pub rpm_limit : ℕ
  pub rate_limited : Bool
  pub rate_limited_until : ℕ
  pub rate_limited_started : Option ℕ
  pub rate_limited_models : Option (Dict ℕ)
  pub rate_limited_model_starts : Option (Dict ℕ)

pub record AccountsResponse : Type 0 where
  pub accounts : Option (List AccountRow)
  pub tier_models : Dict (List String)

pub record AccountPatch : Type 0 where
  pub status : Option AccountStatus
  pub label : Option String
  pub reset_errors : Option Bool
  pub blocked_models : Option (List String)
  pub tier : Option AccountTier

pub record AddAccountBody : Type 0 where
  pub api_key : Option String
  pub token : Option String
  pub label : Option String

pub record TierAccess : Type 0 where
  pub free : List String
  pub pro : List String
  pub unknown : List String
  pub expired : List String
  pub all_models : List String

pub record ProbeResult : Type 0 where
  pub id : String
  pub email : String
  pub tier : Option AccountTier
  pub error : Option String

pub record RateLimitResult : Type 0 where
  pub success : Bool
  pub account : String
  pub has_capacity : Bool
  pub messages_remaining : ℤ
  pub max_messages : ℤ

pub record RefreshCreditsResult : Type 0 where
  pub id : String
  pub email : String
  pub ok_ : Bool
  pub error : Option String
  pub credits : Option AccountCredits
