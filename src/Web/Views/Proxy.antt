-- ===== src/Web/Views/Proxy.antt =====
-- web/src/views/Proxy.vue: the state of the page and its handlers.
pub mod Rows
pub mod Bindings
pub mod Server
pub mod Body
pub mod Mismatch
use Prim.Native.String.{◌++◌ as ◌<>◌}
use windsurf_to_api_go.Prelude.{
  ℕ, String, Bool, true, false, not, ◌&&◌, ◌||◌, Option, none, some, List, [], ◌∷◌, ◌++◌, ◌==◌,
  same, if◌then◌else◌,
}
use windsurf_to_api_go.Prelude.Dict.{Dict}
use windsurf_to_api_go.Prelude.Numbers.{show}
use windsurf_to_api_go.Prelude.Texts.{trim, is_blank, or_undefined}
use windsurf_to_api_go.Web.Request.{or_empty, or_else, toast}
use windsurf_to_api_go.Web.Api.Call.{Reply, resolved, rejected}
use windsurf_to_api_go.Web.Api.Calls.{
  get_proxy, set_global_proxy, clear_global_proxy, set_account_proxy, clear_account_proxy,
  test_proxy, list_accounts, Success, WithConfig,
}
use windsurf_to_api_go.Web.Api.Types.Accounts.{AccountRow, AccountsResponse}
use windsurf_to_api_go.Web.Api.Types.Proxy.{ProxySpec, ProxyConfig, TestProxyBody, TestProxyResult}
use windsurf_to_api_go.Web.Views.HostPort.{has_port, split_host_port}
use windsurf_to_api_go.Web.Views.Page.{Run, sent, succeeds, warns, toasts, say, attempt, or_none}

-- The form for an account: its id, and the fields of a proxy.
pub record AccountForm : Type 0 where
  pub id : String
  pub spec : ProxySpec

pub record ProxyPage : Type 0 where
  pub cfg : ProxyConfig
  pub accounts : List AccountRow
  pub loading : Bool
  pub testing : Bool
  pub test_result : String
  pub form : ProxySpec
  pub per_account : AccountForm
  pub per_account_testing : Bool
  pub per_account_result : String

abbrev no_proxy : ProxySpec
no_proxy = record { type_ = none; host = none; port = none; user = none; pass = none }

abbrev pub global_of : ProxyConfig → ProxySpec
global_of c = elim (c.global) [ none ↦ no_proxy | some g ↦ g ]

abbrev form_of : ProxySpec → ProxySpec
form_of g = record {
  type_ = some (or_else g.type_ "http");
  host = some (or_empty g.host);
  port = g.port;
  user = some (or_empty g.user);
  pass = some (or_empty g.pass);
}

abbrev loaded : Reply ProxyConfig → Reply AccountsResponse → ProxyPage → Run ProxyPage
loaded (resolved c) (resolved a) s =
    (record s { cfg = c; accounts = or_none a.accounts; form = form_of (global_of c) }, [])
loaded (resolved c) (rejected message) s = (s, toasts (toast message "加载失败") ∷ [])
loaded (rejected message) reply s = (s, toasts (toast message "加载失败") ∷ [])

unfoldable pub load : Reply ProxyConfig → Reply AccountsResponse → ProxyPage → Run ProxyPage
unfolding toast get_proxy list_accounts
load proxies accounts s =
    let r = say (sent get_proxy) (say (sent list_accounts) (loaded proxies accounts s)) in
    (record (r.0) { loading = false }, r.1)

abbrev with_host_port : ProxySpec → ProxySpec
with_host_port p =
    let found = split_host_port p.host p.port in record p { host = found.0; port = found.1 }

abbrev no_host : ProxySpec → Bool
no_host p = is_blank (trim (or_empty p.host))

abbrev saved_spec : ProxySpec → ProxySpec
saved_spec p = record {
  type_ = p.type_;
  host = some (trim (or_empty p.host));
  port = p.port;
  user = or_undefined (trim (or_empty p.user));
  pass = or_undefined (or_empty p.pass);
}

abbrev test_spec : ProxySpec → TestProxyBody
test_spec p = record {
  type_ = p.type_;
  host = some (trim (or_empty p.host));
  port = p.port;
  username = or_undefined (trim (or_empty p.user));
  password = or_undefined (or_empty p.pass);
}

unfoldable pub on_save : Reply (WithConfig ProxyConfig) → ProxyPage → Run ProxyPage
unfolding trim split_host_port set_global_proxy
on_save reply s =
    let p = with_host_port s.form in
    let split = record s { form = p } in
    if no_host s.form
    then (s, warns "请输入代理主机" ∷ [])
    else if not (has_port p.port)
    then (split, warns "请填写端口，或把 :端口 附在主机后面" ∷ [])
    else attempt (set_global_proxy (saved_spec p)) reply "保存失败"
        (λ r. (record split { cfg = r.config }, succeeds "已保存全局代理" ∷ [])) split

unfoldable pub on_clear_global :
    Reply Success → Reply ProxyConfig → Reply AccountsResponse → ProxyPage → Run ProxyPage
unfolding clear_global_proxy load
on_clear_global cleared proxies accounts s =
    attempt clear_global_proxy cleared "操作失败"
      (λ a. let r = load proxies accounts s in (r.0, r.1 ++ succeeds "已清除全局代理" ∷ [])) s

abbrev latency_text : String → String → Option ℕ → String
latency_text before after none = ""
latency_text before after (some ms) = if ms == 0 then "" else before <> show ms <> after

abbrev test_text : Reply TestProxyResult → String
test_text (resolved r) =
    if r.ok
    then "✓ 出口 IP: " <> or_else r.egress_ip "-" <> latency_text " (" "ms)" r.latency_ms
    else "✗ " <> or_else r.error "测试失败"
test_text (rejected message) = or_else message "测试失败"

unfoldable pub on_test : Reply TestProxyResult → ProxyPage → Run ProxyPage
unfolding trim split_host_port show test_proxy
on_test reply s =
    let p = with_host_port s.form in
    if no_host p || not (has_port p.port)
    then (record s { form = p; test_result = "请先填写主机和端口（或把 :端口 附在主机后面）" }, [])
    else (
      record s { form = p; test_result = test_text reply; testing = false },
      sent (test_proxy (test_spec p)) ∷ [],
    )

unfoldable pub on_clear_account :
    (String → String)
    → String
    → Reply Success
    → Reply ProxyConfig
    → Reply AccountsResponse
    → ProxyPage
    → Run ProxyPage
unfolding clear_account_proxy load
on_clear_account encode id cleared proxies accounts s =
    attempt (clear_account_proxy encode id) cleared "操作失败"
      (λ a. let r = load proxies accounts s in (r.0, r.1 ++ succeeds "已清除" ∷ [])) s

-- The form after its proxy is saved: everything but the type is emptied.
abbrev emptied : ProxySpec → AccountForm
emptied p = record {
  id = "";
  spec = record p { host = some ""; port = none; user = some ""; pass = some "" };
}

unfoldable pub on_add_account_proxy :
    (String → String)
    → Reply Success
    → Reply ProxyConfig
    → Reply AccountsResponse
    → ProxyPage
    → Run ProxyPage
unfolding trim split_host_port set_account_proxy load
on_add_account_proxy encode added proxies accounts s =
    let form = s.per_account in
    let p = with_host_port form.spec in
    let split = record s { per_account = record form { spec = p } } in
    if is_blank form.id
    then (s, warns "请先选择账号" ∷ [])
    else if no_host form.spec
    then (s, warns "请填写代理主机" ∷ [])
    else if not (has_port p.port)
    then (split, warns "请填写端口，或把 :端口 附在主机后面" ∷ [])
    else attempt (set_account_proxy encode form.id (saved_spec p)) added "保存失败"
        (λ a.
          say (succeeds "已保存账号级代理")
            (load proxies accounts (record split { per_account = emptied p })))
        split

abbrev account_test_text : Reply TestProxyResult → String
account_test_text (resolved r) =
    if r.ok
    then "✓ 出口 IP " <> or_else r.egress_ip "-" <> latency_text " · " "ms" r.latency_ms
    else "✗ " <> or_else r.error "失败"
account_test_text (rejected message) = or_else message "测试失败"

unfoldable pub on_test_account_proxy : Reply TestProxyResult → ProxyPage → Run ProxyPage
unfolding trim split_host_port show test_proxy
on_test_account_proxy reply s =
    let p = with_host_port s.per_account.spec in
    let split = record s { per_account = record (s.per_account) { spec = p } } in
    if no_host p || not (has_port p.port)
    then (record split { per_account_result = "请先填写主机和端口（或把 :端口 附在主机后面）" }, [])
    else (
      record split { per_account_result = account_test_text reply; per_account_testing = false },
      sent (test_proxy (test_spec p)) ∷ [],
    )
