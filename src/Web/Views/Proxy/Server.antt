-- ===== src/Web/Views/Proxy/Server.antt =====
-- The routes /proxy of internal/dashapi/dashapi.go, with the JSON between them and web/src/views/Proxy.vue.
use windsurf_to_api_go.Prelude.{ℕ, String, Option, none, some, [], ◌∷◌, ◌==◌, same, if◌then◌else◌}
use windsurf_to_api_go.Prelude.Dict.{Dict}
use windsurf_to_api_go.ProxyCfg.{
  Proxy, File, ProxyState, set_global, set_account, remove, global_scope, account_scope,
}
use windsurf_to_api_go.ProxyCfg
use windsurf_to_api_go.Web.Request.{or_empty}
use windsurf_to_api_go.Web.Api.Json.{
  Json, text, number, null, object, Fields, no_fields, field, text_at, number_at, object_at,
}
use windsurf_to_api_go.Web.Api.Types.Proxy.{ProxySpec, ProxyConfig}

-- `json.Marshal` of a `langserver.Proxy`, a struct without tags: the names are those of its fields.
unfoldable pub proxy_json : Proxy → Json
proxy_json p = object (
    field "Type" (text p.type_) (
      field "Host" (text p.host) (
        field "Port" (number p.port)
          (field "Username" (text p.username) (field "Password" (text p.password) no_fields)))))

abbrev global_json : Option Proxy → Json
global_json none = null
global_json (some p) = proxy_json p

abbrev accounts_json : Dict Proxy → Fields
accounts_json [] = no_fields
accounts_json ((id, p) ∷ rest) = field id (proxy_json p) (accounts_json rest)

-- `json.Marshal` of a `proxycfg.Snapshot`.
unfoldable pub snapshot_json : File → Fields
unfolding proxy_json
snapshot_json f =
    field "global" (global_json f.global)
      (field "perAccount" (object (accounts_json f.per_account)) no_fields)

-- What the page finds in an object that it takes for a `ProxySpec`.
unfoldable pub read_spec : Fields → ProxySpec
unfolding text_at number_at
read_spec f = record {
  type_ = text_at "type" f;
  host = text_at "host" f;
  port = number_at "port" f;
  user = text_at "user" f;
  pass = text_at "pass" f;
}

abbrev read_specs : Fields → Dict ProxySpec
read_specs no_fields = []
read_specs (field id (object f) rest) = (id, read_spec f) ∷ read_specs rest
read_specs (field id (text s) rest) = read_specs rest
read_specs (field id (number n) rest) = read_specs rest
read_specs (field id null rest) = read_specs rest

abbrev read_global : Option Fields → Option ProxySpec
read_global none = none
read_global (some f) = some (read_spec f)

abbrev read_accounts : Option Fields → Option (Dict ProxySpec)
read_accounts none = none
read_accounts (some f) = some (read_specs f)

unfoldable pub read_config : Fields → ProxyConfig
unfolding read_spec object_at
read_config f = record {
  global = read_global (object_at "global" f);
  accounts = read_accounts (object_at "accounts" f);
}

abbrev pub text_field : String → Option String → Fields → Fields
text_field name none rest = rest
text_field name (some s) rest = field name (text s) rest

abbrev pub number_field : String → Option ℕ → Fields → Fields
number_field name none rest = rest
number_field name (some n) rest = field name (number n) rest

-- `JSON.stringify` of a `ProxySpec`: an undefined field is left out.
unfoldable pub spec_json : ProxySpec → Fields
spec_json p = text_field "type" p.type_ (
    text_field "host" p.host
      (number_field "port" p.port (text_field "user" p.user (text_field "pass" p.pass no_fields))))

abbrev pub or_default {ℓ} : {A : Type ℓ} → A → Option A → A
or_default a none = a
or_default a (some b) = b

abbrev pub or_http : String → String
or_http t = if same t "" then "http" else t

abbrev pub or_8080 : ℕ → ℕ
or_8080 n = if n == 0 then 8080 else n

-- `decodeProxy`, on a body whose port is a number or absent, as the page sends it.
unfoldable pub decode_proxy : Fields → Option Proxy
unfolding text_at number_at
decode_proxy m =
    let host = or_empty (text_at "host" m) in
    if same host ""
    then none
    else some (record {
      type_ = or_http (or_empty (text_at "type" m));
      host = host;
      port = or_8080 (or_default 0 (number_at "port" m));
      username = or_empty (text_at "username" m);
      password = or_empty (text_at "password" m);
    })

-- The routes: the answer's object, where it has one, and the state.
unfoldable pub get_route : ProxyState → Fields × ProxyState
unfolding snapshot_json ProxyCfg.get
get_route s = (snapshot_json (ProxyCfg.get s), s)

unfoldable pub put_global_route : Fields → ProxyState → Fields × ProxyState
unfolding snapshot_json ProxyCfg.get decode_proxy set_global
put_global_route body s =
    let next = set_global (decode_proxy body) s in (snapshot_json (ProxyCfg.get next), next)

unfoldable pub delete_global_route : ProxyState → ProxyState
unfolding remove
delete_global_route s = remove global_scope "" s

unfoldable pub put_account_route : String → Fields → ProxyState → ProxyState
unfolding decode_proxy set_account
put_account_route id body s = set_account id (decode_proxy body) s

unfoldable pub delete_account_route : String → ProxyState → ProxyState
unfolding remove
delete_account_route id s = remove account_scope id s
