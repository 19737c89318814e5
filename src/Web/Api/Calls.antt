-- ===== src/Web/Api/Calls.antt =====
-- The functions of web/src/api, file by file. `encode` is the browser's `encodeURIComponent`.
use windsurf_to_api_go.Prelude.{ℕ, String, Bool, true}
use windsurf_to_api_go.Prelude.Dict.{Dict}
use Prim.Native.String.{◌++◌ as ◌<>◌}
use windsurf_to_api_go.Web.Session.{AuthProbe}
use windsurf_to_api_go.Web.Api.Call
use windsurf_to_api_go.Web.Api.Call.{
  Call, account_body, patch_body, flags_body, prompts_body, windsurf_body, oauth_body, access_body,
  model_body, confirm_body, proxy_body, test_body, reset_body,
}
use windsurf_to_api_go.Web.Api.Types.Overview.{HealthInfo, OverviewPayload, CacheSnapshot}
use windsurf_to_api_go.Web.Api.Types.Accounts.{
  AccountStatus, AccountsResponse, AccountPatch, AddAccountBody, ProbeResult, RateLimitResult,
  RefreshCreditsResult, TierAccess,
}
use windsurf_to_api_go.Prelude.{Option, List}
use windsurf_to_api_go.Web.Api.Types.Models.{
  ModelInfo, CatalogResponse, ModelAccessAnswer, ModelAccessConfig,
}
use windsurf_to_api_go.Web.Api.Types.Proxy.{ProxySpec, ProxyConfig, TestProxyBody, TestProxyResult}
use windsurf_to_api_go.Web.Api.Types.Stats.{StatsPayload}
use windsurf_to_api_go.Web.Api.Types.Settings.{
  ExperimentalFlags, ExperimentalResponse, IdentityPromptMap, IdentityPromptsResponse,
  SelfUpdateStatus, SelfUpdateResult,
}
use windsurf_to_api_go.Web.Api.Types.Login.{WindsurfLoginBody, WindsurfLoginResult, OAuthLoginBody}

-- The answers that the functions describe themselves.
pub record Added : Type 0 where
  pub success : Bool
  pub id : String
  pub email : String
  pub method : String
  pub status : AccountStatus

pub record Success : Type 0 where
  pub success : Bool

pub record Results (R : Type 0) : Type 0 where
  pub success : Bool
  pub results : Option (List R)

pub record Probed : Type 0 where
  pub success : Bool
  pub tier : Option String

pub record TokenRefreshed : Type 0 where
  pub success : Bool
  pub key_changed : Bool
  pub email : String

pub record Restarted : Type 0 where
  pub success : Bool
  pub message : Option String

pub record WithFlags : Type 0 where
  pub success : Bool
  pub flags : ExperimentalFlags

pub record Cleared : Type 0 where
  pub success : Bool
  pub cleared : ℕ

pub record WithPrompts : Type 0 where
  pub success : Bool
  pub prompts : IdentityPromptMap

pub record ModelList : Type 0 where
  pub models : Option (List ModelInfo)

pub record WithConfig (C : Type 0) : Type 0 where
  pub success : Bool
  pub config : C

pub record ServerConfig : Type 0 where
  pub port : ℕ
  pub default_model : String
  pub max_tokens : ℕ
  pub log_level : String
  pub ls_binary_path : String
  pub ls_port : ℕ
  pub codeium_api_url : String
  pub has_api_key : Bool
  pub has_dashboard_password : Bool

unfoldable pub list_accounts : Call AccountsResponse
list_accounts = Call.get "/accounts"

unfoldable pub add_account : AddAccountBody → Call Added
add_account body = Call.post "/accounts" (account_body body)

unfoldable pub remove_account : (String → String) → String → Call Success
remove_account encode id = Call.delete ("/accounts/" <> encode id)

unfoldable pub patch_account : (String → String) → String → AccountPatch → Call Success
patch_account encode id body = Call.patch ("/accounts/" <> encode id) (patch_body body)

unfoldable pub probe_all : Call (Results ProbeResult)
probe_all = Call.post_empty "/accounts/probe-all"

unfoldable pub probe_one : (String → String) → String → Call Probed
probe_one encode id = Call.post_empty ("/accounts/" <> encode id <> "/probe")

unfoldable pub refresh_all_credits : Call (Results RefreshCreditsResult)
refresh_all_credits = Call.post_empty "/accounts/refresh-credits"

unfoldable pub refresh_credits : (String → String) → String → Call RefreshCreditsResult
refresh_credits encode id = Call.post_empty ("/accounts/" <> encode id <> "/refresh-credits")

unfoldable pub check_rate_limit : (String → String) → String → Call RateLimitResult
check_rate_limit encode id = Call.post_empty ("/accounts/" <> encode id <> "/rate-limit")

unfoldable pub refresh_account_token : (String → String) → String → Call TokenRefreshed
refresh_account_token encode id = Call.post_empty ("/accounts/" <> encode id <> "/refresh-token")

unfoldable pub get_tier_access : Call TierAccess
get_tier_access = Call.get "/tier-access"

unfoldable pub probe_auth : Call AuthProbe
probe_auth = Call.get "/auth"

unfoldable pub get_health : Call HealthInfo
get_health = Call.public_get "/health"

unfoldable pub get_experimental : Call ExperimentalResponse
get_experimental = Call.get "/experimental"

unfoldable pub patch_experimental : Dict Bool → Call WithFlags
patch_experimental p = Call.put "/experimental" (flags_body p)

unfoldable pub clear_conversation_pool : Call Cleared
clear_conversation_pool = Call.delete "/experimental/conversation-pool"

unfoldable pub get_identity_prompts : Call IdentityPromptsResponse
get_identity_prompts = Call.get "/identity-prompts"

unfoldable pub put_identity_prompts : Dict String → Call WithPrompts
put_identity_prompts p = Call.put "/identity-prompts" (prompts_body p)

unfoldable pub reset_identity_prompt : (String → String) → String → Call WithPrompts
reset_identity_prompt encode provider = Call.delete ("/identity-prompts/" <> encode provider)

unfoldable pub windsurf_login : WindsurfLoginBody → Call WindsurfLoginResult
windsurf_login body = Call.post "/windsurf-login" (windsurf_body body)

unfoldable pub oauth_login : OAuthLoginBody → Call WindsurfLoginResult
oauth_login body = Call.post "/oauth-login" (oauth_body body)

unfoldable pub list_models : Call ModelList
list_models = Call.get "/models"

unfoldable pub list_model_catalog : Call CatalogResponse
list_model_catalog = Call.get "/models/catalog"

unfoldable pub get_model_access : Call ModelAccessAnswer
get_model_access = Call.get "/model-access"

unfoldable pub put_model_access : ModelAccessConfig → Call (WithConfig ModelAccessAnswer)
put_model_access cfg = Call.put "/model-access" (access_body cfg)

unfoldable pub add_model_access : String → Call (WithConfig ModelAccessAnswer)
add_model_access model = Call.post "/model-access/add" (model_body model)

unfoldable pub remove_model_access : String → Call (WithConfig ModelAccessAnswer)
remove_model_access model = Call.post "/model-access/remove" (model_body model)

unfoldable pub get_overview : Call OverviewPayload
get_overview = Call.get "/overview"

unfoldable pub restart_language_server : Call Restarted
restart_language_server = Call.post "/langserver/restart" (confirm_body true)

unfoldable pub get_proxy : Call ProxyConfig
get_proxy = Call.get "/proxy"

unfoldable pub set_global_proxy : ProxySpec → Call (WithConfig ProxyConfig)
set_global_proxy spec = Call.put "/proxy/global" (proxy_body spec)

unfoldable pub clear_global_proxy : Call Success
clear_global_proxy = Call.delete "/proxy/global"

unfoldable pub set_account_proxy : (String → String) → String → ProxySpec → Call Success
set_account_proxy encode id spec = Call.put ("/proxy/accounts/" <> encode id) (proxy_body spec)

unfoldable pub clear_account_proxy : (String → String) → String → Call Success
clear_account_proxy encode id = Call.delete ("/proxy/accounts/" <> encode id)

unfoldable pub test_proxy : TestProxyBody → Call TestProxyResult
test_proxy body = Call.post "/test-proxy" (test_body body)

unfoldable pub check_update : Call SelfUpdateStatus
check_update = Call.get "/self-update/check"

unfoldable pub apply_update : Bool → Call SelfUpdateResult
apply_update force_reset = Call.post "/self-update" (reset_body force_reset)

unfoldable pub get_cache : Call CacheSnapshot
get_cache = Call.get "/cache"

unfoldable pub clear_cache : Call Success
clear_cache = Call.delete "/cache"

unfoldable pub get_config : Call ServerConfig
get_config = Call.get "/config"

unfoldable pub get_stats : Call StatsPayload
get_stats = Call.get "/stats"

unfoldable pub reset_stats : Call Success
reset_stats = Call.delete "/stats"
