-- ===== src/Web/Api/Types/Login.antt =====
-- The types of web/src/api/types.ts for the logins.
use windsurf_to_api_go.Prelude.{String, Bool, Option}
use windsurf_to_api_go.Web.Api.Types.Accounts.{AccountStatus}
use windsurf_to_api_go.Web.Api.Types.Proxy.{ProxySpec}

pub record WindsurfLoginBody : Type 0 where
  pub email : String
  pub password : String
  pub auto_add : Option Bool
  pub proxy : Option ProxySpec

pub record LoginAccount : Type 0 where
  pub id : String
  pub email : String
  pub status : AccountStatus

pub record WindsurfLoginResult : Type 0 where
  pub success : Bool
  pub api_key : Option String
  pub email : Option String
  pub name : Option String
  pub api_server_url : Option String
  pub account : Option LoginAccount
  pub error : Option String
  pub is_auth_fail : Option Bool
  pub firebase_code : Option String

pub record OAuthLoginBody : Type 0 where
  pub id_token : String
  pub refresh_token : Option String
  pub email : Option String
  pub provider : Option String
  pub auto_add : Option Bool
