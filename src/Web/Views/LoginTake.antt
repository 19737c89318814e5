-- ===== src/Web/Views/LoginTake.antt =====
-- web/src/views/LoginTake.vue: the login forms, and the history of logins that the browser keeps.
pub mod History
pub mod Handlers
use Prim.Native.String.{◌++◌ as ◌<>◌, len, slice}
use windsurf_to_api_go.Prelude.{
  ℕ, ◌+◌, ◌-◌, String, Bool, true, false, not, ◌&&◌, ◌||◌, Option, none, some, List, [], ◌∷◌, ◌++◌,
  ◌==◌, leb, length, take, drop, same, if◌then◌else◌,
}
use windsurf_to_api_go.Prelude.Lists.{last_of}
use windsurf_to_api_go.Prelude.Numbers.{show}
use windsurf_to_api_go.Prelude.Texts.{trim, is_blank, or_undefined}
use windsurf_to_api_go.Web.Request.{or_empty, truthy, toast, or_else}
use windsurf_to_api_go.Web.Api.Call.{Reply, resolved, rejected}
use windsurf_to_api_go.Web.Api.Calls.{windsurf_login, oauth_login, test_proxy}
use windsurf_to_api_go.Web.Api.Types.Login.{
  WindsurfLoginBody, WindsurfLoginResult, OAuthLoginBody, LoginAccount,
}
use windsurf_to_api_go.Web.Api.Types.Proxy.{ProxySpec, TestProxyBody, TestProxyResult}
use windsurf_to_api_go.Web.Views.HostPort.{has_port, split_host_port}
use windsurf_to_api_go.Web.Views.Page.{
  Run, Step, sent, succeeds, fails, warns, toasts, say, or_value, Column,
}

-- What a call of the login functions may throw: an `ApiError`, with the fields of its body where the
-- body is an object, another `Error`, or anything else.
pub record Payload : Type 0 where
  pub success : Option Bool
  pub fields : WindsurfLoginResult

pub data Thrown : Type 0 where
  api_error : String → Option Payload → Thrown
  plain_error : String → Thrown
  other_thrown : Thrown

pub data LoginReply : Type 0 where
  answered : WindsurfLoginResult → LoginReply
  thrown : Thrown → LoginReply

abbrev pub failure : String → WindsurfLoginResult
failure text = record {
  success = false;
  api_key = none;
  email = none;
  name = none;
  api_server_url = none;
  account = none;
  error = some text;
  is_auth_fail = none;
  firebase_code = none;
}

unfoldable pub as_login_result : Thrown → String → WindsurfLoginResult
as_login_result (api_error message (some payload)) fallback = record (payload.fields) {
  success = or_value false payload.success;
}
as_login_result (api_error message none) fallback =
    failure (if is_blank message then fallback else message)
as_login_result (plain_error message) fallback = failure message
as_login_result other_thrown fallback = failure fallback

pub record HistoryRow : Type 0 where
  pub ts : ℕ
  pub email : String
  pub ok : Bool
  pub proxy : Option String
  pub error : Option String
  pub method : String

-- The entry of the local storage: absent, no JSON, or rows.
pub data Stored : Type 0 where
  absent : Stored
  malformed : Stored
  rows : List HistoryRow → Stored

pub record LoginForm : Type 0 where
  pub email : String
  pub password : String
  pub auto_add : Bool

pub record LoginPage : Type 0 where
  pub form : LoginForm
  pub proxy : ProxySpec
  pub proxy_result : String
  pub testing : Bool
  pub submitting : Bool
  pub oauth_busy : Option String
  pub result : Option WindsurfLoginResult
  pub history : List HistoryRow
  pub storage : Stored

unfoldable pub load_history : LoginPage → LoginPage
load_history s = record s {
  history = elim (s.storage) [ absent ↦ [] | malformed ↦ [] | rows saved ↦ saved ];
}

unfoldable pub save_history : LoginPage → LoginPage
save_history s = record s { storage = rows (last_of 50 s.history) }

unfoldable pub record_history : HistoryRow → LoginPage → LoginPage
unfolding save_history
record_history r s = save_history (record s { history = take 50 (r ∷ s.history) })
