-- ===== src/Web/Api/Call.antt =====
-- A call of the request module as data, and what comes back: web/src/api/request.ts.
use windsurf_to_api_go.Prelude.{String, Option, none, some, Bool}
use windsurf_to_api_go.Prelude.Dict.{Dict}
use windsurf_to_api_go.Web.Request.{
  Browser, Method, get_method, post_method, put_method, patch_method, delete_method, Request,
  prepare,
}
use windsurf_to_api_go.Web.Api.Types.Accounts.{AccountPatch, AddAccountBody}
use windsurf_to_api_go.Web.Api.Types.Models.{ModelAccessConfig}
use windsurf_to_api_go.Web.Api.Types.Proxy.{ProxySpec, TestProxyBody}
use windsurf_to_api_go.Web.Api.Types.Login.{WindsurfLoginBody, OAuthLoginBody}

-- The bodies that the calls send.
pub data Body : Type 0 where
  account_body : AddAccountBody → Body
  patch_body : AccountPatch → Body
  flags_body : Dict Bool → Body
  prompts_body : Dict String → Body
  windsurf_body : WindsurfLoginBody → Body
  oauth_body : OAuthLoginBody → Body
  access_body : ModelAccessConfig → Body
  model_body : String → Body
  confirm_body : Bool → Body
  proxy_body : ProxySpec → Body
  test_body : TestProxyBody → Body
  reset_body : Bool → Body

-- A call whose answer is an `A`.
pub record Call (A : Type 0) : Type 0 where
  pub base_url : String
  pub method : Method
  pub path : String
  pub body : Option Body

abbrev pub get : {A : Type 0} → String → Call A
get path = record { base_url = "/dashboard/api"; method = get_method; path = path; body = none }

abbrev pub post : {A : Type 0} → String → Body → Call A
post path body = record {
  base_url = "/dashboard/api";
  method = post_method;
  path = path;
  body = some body;
}

abbrev pub post_empty : {A : Type 0} → String → Call A
post_empty path = record {
  base_url = "/dashboard/api";
  method = post_method;
  path = path;
  body = none;
}

abbrev pub put : {A : Type 0} → String → Body → Call A
put path body = record {
  base_url = "/dashboard/api";
  method = put_method;
  path = path;
  body = some body;
}

abbrev pub patch : {A : Type 0} → String → Body → Call A
patch path body = record {
  base_url = "/dashboard/api";
  method = patch_method;
  path = path;
  body = some body;
}

abbrev pub delete : {A : Type 0} → String → Call A
delete path = record {
  base_url = "/dashboard/api";
  method = delete_method;
  path = path;
  body = none;
}

-- `publicHttp.get`, which is not under the dashboard's path.
abbrev pub public_get : {A : Type 0} → String → Call A
public_get path = record { base_url = ""; method = get_method; path = path; body = none }

-- What the client makes of it.
unfoldable pub http : {A : Type 0} → Call A → Browser → Request Body × Browser
unfolding prepare
http c b =
    let sent = prepare c.method c.path c.body b in
    (record (sent.0) { base_url = c.base_url }, sent.1)

-- How a call ends: with an answer, or with an error, that may have a text. The text is absent where the
-- error is no `Error`.
pub data Reply (A : Type 0) : Type 0 where
  resolved : A → Reply A
  rejected : Option String → Reply A
