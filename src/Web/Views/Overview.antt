-- ===== src/Web/Views/Overview.antt =====
-- web/src/views/Overview.vue: the state of the page and its handlers.
pub mod Format
pub mod Status
pub mod Totals
use windsurf_to_api_go.Prelude.{
  ℕ, String, Bool, true, false, Option, none, some, List, [], ◌∷◌, ◌++◌, leb, same, if◌then◌else◌,
}
use windsurf_to_api_go.Web.Request.{toast}
use windsurf_to_api_go.Web.Api.Call.{Reply, resolved, rejected}
use windsurf_to_api_go.Web.Api.Calls.{
  get_overview, restart_language_server, clear_cache, get_config, list_model_catalog, ServerConfig,
  Success, Restarted,
}
use windsurf_to_api_go.Web.Api.Types.Overview.{OverviewPayload}
use windsurf_to_api_go.Web.Api.Types.Models.{CatalogGroup, CatalogResponse}
use windsurf_to_api_go.Web.Views.Page.{
  Run, sent, succeeds, toasts, confirms, schedules, say, attempt,
}

-- `ServerConfig` is declared in the view, with the fields of the answer of `getConfig`.
pub record OverviewPage : Type 0 where
  pub loading : Bool
  pub data_ : Option OverviewPayload
  pub config : Option ServerConfig
  pub catalog : List CatalogGroup

unfoldable pub load : Reply OverviewPayload → OverviewPage → Run OverviewPage
unfolding get_overview
load reply s =
    let r = attempt get_overview reply "加载概览失败" (λ d. (record s { data_ = some d }, [])) s in
    (record (r.0) { loading = false }, r.1)

-- A failure is not shown here, and the panel stays as it was.
unfoldable pub load_config : Reply ServerConfig → OverviewPage → Run OverviewPage
unfolding get_config
load_config (resolved c) s = (record s { config = some c }, sent get_config ∷ [])
load_config (rejected message) s = (s, sent get_config ∷ [])

unfoldable pub load_catalog : Reply CatalogResponse → OverviewPage → Run OverviewPage
unfolding list_model_catalog
load_catalog (resolved r) s = (record s { catalog = r.groups }, sent list_model_catalog ∷ [])
load_catalog (rejected message) s = (s, sent list_model_catalog ∷ [])

unfoldable pub on_clear_cache :
    Reply Success → Reply OverviewPayload → OverviewPage → Run OverviewPage
unfolding clear_cache load
on_clear_cache cleared loaded s =
    attempt clear_cache cleared "清空失败"
      (λ a. let r = load loaded s in (r.0, r.1 ++ succeeds "响应缓存已清空" ∷ [])) s

-- The dialog is shown first; `confirmed` says whether the operator agrees. A restart loads the page
-- again two seconds later.
unfoldable pub on_restart_ls : Bool → Reply Restarted → OverviewPage → Run OverviewPage
unfolding restart_language_server toast
on_restart_ls confirmed reply s =
    say (confirms "重启 Language Server" "将停止当前所有 LS 实例并重新拉起。进行中的请求会断开重试。") (
      if confirmed
      then attempt restart_language_server reply "重启失败"
          (λ a. (s, succeeds "已触发重启" ∷ schedules 2000 ∷ [])) s
      else (s, []))

abbrev pub mode_of : Option OverviewPayload → String
mode_of none = ""
mode_of (some d) = d.model_access.mode

unfoldable pub model_access_description : OverviewPage → String
model_access_description s =
    if same (mode_of s.data_) "allowlist"
    then "允许清单模式"
    else if same (mode_of s.data_) "blocklist"
    then "封锁清单模式"
    else "全部放行"
