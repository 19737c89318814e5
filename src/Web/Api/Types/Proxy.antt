-- ===== src/Web/Api/Types/Proxy.antt =====
-- The types of web/src/api/types.ts for the proxies.
use windsurf_to_api_go.Prelude.{ℕ, String, Bool, Option}
use windsurf_to_api_go.Prelude.Dict.{Dict}

pub record ProxySpec : Type 0 where
  pub type_ : Option String
  pub host : Option String
  pub port : Option ℕ
  pub user : Option String
  pub pass : Option String

pub record ProxyConfig : Type 0 where
  pub global : Option ProxySpec
  pub accounts : Option (Dict ProxySpec)

pub record TestProxyBody : Type 0 where
  pub type_ : Option String
  pub host : Option String
  pub port : Option ℕ
  pub username : Option String
  pub password : Option String

pub record TestProxyResult : Type 0 where
  pub ok : Bool
  pub egress_ip : Option String
  pub type_ : Option String
  pub latency_ms : Option ℕ
  pub error : Option String
