-- ===== src/Web/Views/LoginTake/Handlers.antt =====
-- web/src/views/LoginTake.vue: the two logins, the test of the proxy and what the page says of them.
use Prim.Native.String.{◌++◌ as ◌<>◌, len, slice}
use windsurf_to_api_go.Prelude.{
  ℕ, ◌-◌, String, Bool, true, false, not, ◌&&◌, ◌||◌, Option, none, some, List, [], ◌∷◌, ◌++◌, ◌==◌,
  leb, same, if◌then◌else◌,
}
use windsurf_to_api_go.Prelude.Numbers.{show}
use windsurf_to_api_go.Prelude.Texts.{trim, is_blank, or_undefined}
use windsurf_to_api_go.Web.Request.{or_empty, toast, or_else}
use windsurf_to_api_go.Web.Api.Call.{Reply, resolved, rejected}
use windsurf_to_api_go.Web.Api.Calls.{windsurf_login, oauth_login, test_proxy}
use windsurf_to_api_go.Web.Api.Types.Login.{WindsurfLoginResult}
use windsurf_to_api_go.Web.Api.Types.Proxy.{ProxySpec, TestProxyBody, TestProxyResult}
use windsurf_to_api_go.Web.Views.HostPort.{has_port, split_host_port}
use windsurf_to_api_go.Web.Views.LoginTake.{
  LoginReply, answered, thrown, failure, as_login_result, HistoryRow, LoginPage, record_history,
}
use windsurf_to_api_go.Web.Views.Page.{
  Run, Step, sent, succeeds, fails, warns, toasts, or_value, Column,
}

unfoldable pub current_proxy : ProxySpec → Option ProxySpec
unfolding trim
current_proxy proxy =
    if is_blank (trim (or_empty proxy.host))
    then none
    else some (record proxy {
      host = some (trim (or_empty proxy.host));
      user = or_undefined (trim (or_empty proxy.user));
      pass = or_undefined (or_empty proxy.pass);
    })

abbrev port_text : Option ℕ → String
port_text none = ""
port_text (some port) = show port

-- A missing type or host prints as `undefined`.
unfoldable pub describe_proxy : Option ProxySpec → String
unfolding show
describe_proxy none = ""
describe_proxy (some p) =
    or_else p.type_ "undefined" <> "://" <> or_else p.host "undefined" <> ":" <> port_text p.port

abbrev pub latency_text : String → String → Option ℕ → String
latency_text before after none = ""
latency_text before after (some ms) = if ms == 0 then "" else before <> show ms <> after

abbrev test_text : Reply TestProxyResult → String
test_text (resolved r) =
    if r.ok
    then "✓ 出口 IP " <> or_else r.egress_ip "-" <> latency_text " · " "ms" r.latency_ms
    else "✗ " <> or_else r.error "失败"
test_text (rejected message) = or_else message "测试失败"

abbrev test_body : ProxySpec → TestProxyBody
test_body p = record {
  type_ = p.type_;
  host = some (trim (or_empty p.host));
  port = p.port;
  username = or_undefined (trim (or_empty p.user));
  password = or_undefined (or_empty p.pass);
}

abbrev with_host_port : ProxySpec → ProxySpec
with_host_port p =
    let found = split_host_port p.host p.port in record p { host = found.0; port = found.1 }

unfoldable pub on_test_proxy : Reply TestProxyResult → LoginPage → Run LoginPage
unfolding trim show split_host_port test_proxy
on_test_proxy reply s =
    let p = with_host_port s.proxy in
    if is_blank (trim (or_empty p.host)) || not (has_port p.port)
    then (record s { proxy = p; proxy_result = "请先填写主机和端口（或把 :端口 附在主机后面）"; testing = false }, [])
    else (
      record s { proxy = p; proxy_result = test_text reply; testing = false },
      sent (test_proxy (test_body p)) ∷ [],
    )

abbrev result_of : LoginReply → String → WindsurfLoginResult
result_of (answered r) fallback = r
result_of (thrown err) fallback = as_login_result err fallback

-- The end of both logins: what is shown and recorded of the result.
abbrev finish : HistoryRow → WindsurfLoginResult → LoginPage → LoginPage
finish row r s = record_history row (record s { result = some r })

abbrev told : WindsurfLoginResult → String → Step
told r fallback = if r.success then succeeds "登录成功" else fails (or_else r.error fallback)

unfoldable pub on_email_login : ℕ → LoginReply → LoginPage → Run LoginPage
unfolding trim windsurf_login current_proxy as_login_result record_history describe_proxy
on_email_login now reply s =
    let email = trim s.form.email in
    let proxy = current_proxy s.proxy in
    let r = result_of reply "登录失败" in
    let row : HistoryRow = record {
      ts = now;
      email = email;
      ok = r.success;
      proxy = some (describe_proxy proxy);
      error = r.error;
      method = "email";
    } in
    let done = finish row r (record s { submitting = false }) in
    if is_blank email || is_blank s.form.password then (s, warns "请输入邮箱与密码" ∷ []) else (
      (if r.success then record done { form = record (done.form) { password = "" } } else done),
      sent (
            windsurf_login (record {
              email = email;
              password = s.form.password;
              auto_add = some s.form.auto_add;
              proxy = proxy;
            }))
          ∷ told r "登录失败"
          ∷ [],
    )

abbrev ends_with : String → String → Bool
ends_with s suffix = leb (len suffix) (len s) && same (slice s (len s - len suffix) (len s)) suffix

unfoldable pub oauth_available : String → Bool
oauth_available host =
    same host "localhost" || same host "127.0.0.1" || ends_with host "windsurf.com"

unfoldable pub login_failure_hint : LoginPage → String
unfolding trim
login_failure_hint s = elim (s.result) [
  | none ↦ ""
  | some r ↦
      if not r.success && or_value false r.is_auth_fail && is_blank (trim (or_empty s.proxy.host))
      then "若确认账号/密码无误，当前服务器出口 IP 可能被 Firebase 风控（典型现象：浏览器能登、服务端登不了）。请在下方「登录代理」里配一个住宅代理或 OAuth 登录后重试。"
      else ""
]

-- What the sign-in of Firebase gives: the tokens and the address of the user, or an error.
pub record OAuthPayload : Type 0 where
  pub id_token : String
  pub refresh_token : String
  pub email : String

abbrev oauth_result : Reply OAuthPayload → LoginReply → WindsurfLoginResult
oauth_result (resolved payload) reply = result_of reply "OAuth 登录失败"
oauth_result (rejected message) reply = failure (or_else message "OAuth 登录失败")

abbrev oauth_email : Reply OAuthPayload → String
oauth_email (resolved payload) = payload.email
oauth_email (rejected message) = ""

abbrev oauth_steps : String → Bool → Reply OAuthPayload → List Step
oauth_steps provider auto_add (resolved payload) =
    sent (
      oauth_login (record {
        id_token = payload.id_token;
        refresh_token = some payload.refresh_token;
        email = some payload.email;
        provider = some provider;
        auto_add = some auto_add;
      }))
    ∷ []
oauth_steps provider auto_add (rejected message) = toasts (toast message "OAuth 登录失败") ∷ []

unfoldable pub on_oauth : String → ℕ → Reply OAuthPayload → LoginReply → LoginPage → Run LoginPage
unfolding toast oauth_login as_login_result record_history
on_oauth provider now signed reply s =
    let r = oauth_result signed reply in
    let row : HistoryRow = record {
      ts = now;
      email = (if is_blank (oauth_email signed) then "(unknown)" else oauth_email signed);
      ok = r.success;
      proxy = none;
      error = r.error;
      method = provider;
    } in
    (
      finish row r (record s { oauth_busy = none }),
      oauth_steps provider s.form.auto_add signed ++ told r "OAuth 登录失败" ∷ [],
    )

abbrev column : String → String → Option ℕ → Bool → Column
column title index width ellipsis = record {
  title = title;
  data_index = index;
  width = width;
  ellipsis = ellipsis;
  fixed = none;
}

abbrev pub history_columns : List Column
history_columns =
    column "时间" "ts" (some 180) false
    ∷ column "邮箱" "email" none true
    ∷ column "方式" "method" (some 90) false
    ∷ column "状态" "ok" (some 100) false
    ∷ column "代理" "proxy" none true
    ∷ column "备注" "error" none true
    ∷ []
