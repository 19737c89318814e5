-- ===== src/Web/Views/Proxy/Rows.antt =====
-- web/src/views/Proxy.vue: the accounts with and without a proxy of their own.
use Prim.Native.String.{◌++◌ as ◌<>◌}
use windsurf_to_api_go.Prelude.{
  ℕ, String, Bool, true, false, not, ◌||◌, Option, none, some, List, [], ◌∷◌, find, keep_if, map,
  same, if◌then◌else◌,
}
use windsurf_to_api_go.Prelude.Dict.{Dict}
use windsurf_to_api_go.Prelude.Dict
use windsurf_to_api_go.Prelude.Numbers.{show}
use windsurf_to_api_go.Prelude.Texts.{first_chars, lower_text, includes}
use windsurf_to_api_go.Web.Request.{or_empty, or_else, truthy}
use windsurf_to_api_go.Web.Api.Types.Accounts.{AccountRow}
use windsurf_to_api_go.Web.Api.Types.Proxy.{ProxySpec}
use windsurf_to_api_go.Web.Views.Page.{or_none, is_some, Column}
use windsurf_to_api_go.Web.Views.Proxy.{ProxyPage}

abbrev pub is_bound : Dict ProxySpec → AccountRow → Bool
is_bound bindings a = is_some (Dict.get a.id bindings)

unfoldable pub unbound_accounts : ProxyPage → List AccountRow
unfolding Dict.get
unbound_accounts s = keep_if (λ a. not (is_bound (or_none s.cfg.accounts) a)) s.accounts

pub record SelectChoice : Type 0 where
  pub value : String
  pub label : String

abbrev pub option_of : AccountRow → SelectChoice
option_of a = record { value = a.id; label = a.email <> " · " <> first_chars 8 a.id }

unfoldable pub account_select_options : ProxyPage → List SelectChoice
unfolding unbound_accounts first_chars
account_select_options s = map option_of (unbound_accounts s)

unfoldable pub filter_account_option : String → Option String → Option String → Bool
unfolding lower_text includes
filter_account_option input label value =
    includes (lower_text (or_empty label)) (lower_text input)
    || includes (lower_text (or_empty value)) (lower_text input)

abbrev port_text : Option ℕ → String
port_text none = ""
port_text (some port) = show port

abbrev user_text : Option String → String
user_text user = if truthy user then or_empty user <> "@" else ""

unfoldable pub describe_proxy : Option ProxySpec → String
unfolding show
describe_proxy none = "—"
describe_proxy (some p) =
    if truthy p.host
    then or_else p.type_ "http"
      <> "://"
      <> user_text p.user
      <> or_empty p.host
      <> ":"
      <> port_text p.port
    else "—"

pub record BoundRow : Type 0 where
  pub id : String
  pub email : String
  pub spec : ProxySpec

abbrev email_of : List AccountRow → String → String
email_of accounts id = elim (find (λ a. same a.id id) accounts) [
  | none ↦ first_chars 12 id
  | some a ↦ a.email
]

abbrev bound_row : List AccountRow → String × ProxySpec → BoundRow
bound_row accounts entry = record {
  id = entry.0;
  email = email_of accounts entry.0;
  spec = entry.1;
}

unfoldable pub account_rows : ProxyPage → List BoundRow
unfolding first_chars
account_rows s = map (bound_row s.accounts) (or_none s.cfg.accounts)

abbrev pub account_columns : List Column
account_columns =
    record { title = "账号"; data_index = "email"; width = none; ellipsis = true; fixed = none }
    ∷ record { title = "代理"; data_index = "proxy"; width = none; ellipsis = false; fixed = none }
    ∷ record {
      title = "操作";
      data_index = "actions";
      width = some 140;
      ellipsis = false;
      fixed = none;
    }
    ∷ []
