-- ===== src/Web/Views/Accounts.antt =====
-- web/src/views/Accounts.vue: the state of the page and its handlers.
pub mod Rows
pub mod Failures
use Prim.Native.String.{◌++◌ as ◌<>◌}
use windsurf_to_api_go.Prelude.{
  ℕ, String, Bool, true, false, not, ◌&&◌, ◌||◌, Option, none, some, List, [], ◌∷◌, length, same,
  if◌then◌else◌,
}
use windsurf_to_api_go.Prelude.Numbers.{ℤ, is_negative, show, show_int}
use windsurf_to_api_go.Prelude.Texts.{trim, is_blank, or_undefined}
use windsurf_to_api_go.Web.Api.Call.{Reply, resolved, rejected}
use windsurf_to_api_go.Web.Api.Calls.{
  list_accounts, add_account, remove_account, patch_account, probe_all, probe_one,
  refresh_all_credits, refresh_credits, check_rate_limit, refresh_account_token, Added, Success,
  Results, Probed, TokenRefreshed,
}
use windsurf_to_api_go.Web.Api.Types.Accounts.{
  AccountRow, AccountsResponse, AccountPatch, AddAccountBody, AccountTier, ProbeResult,
  RateLimitResult, RefreshCreditsResult,
}
use windsurf_to_api_go.Web.Views.Page.{Run, succeeds, warns, informs, say, attempt, or_none}

pub data KeyType : Type 0 where
  token_type : KeyType
  api_key_type : KeyType

pub record AddForm : Type 0 where
  pub type_ : KeyType
  pub value : String
  pub label : String

pub record AccountsPage : Type 0 where
  pub loading : Bool
  pub accounts : List AccountRow
  pub form : AddForm

unfoldable pub load : Reply AccountsResponse → AccountsPage → Run AccountsPage
unfolding list_accounts
load reply s =
    let r =
      attempt list_accounts reply "加载账号失败" (λ a. (record s { accounts = or_none a.accounts }, []))
        s in
    (record (r.0) { loading = false }, r.1)

abbrev body_of : AddForm → AddAccountBody
body_of form = elim (form.type_) [
  | token_type ↦ record {
    api_key = none;
    token = some (trim form.value);
    label = or_undefined (trim form.label);
  }
  | api_key_type ↦ record {
    api_key = some (trim form.value);
    token = none;
    label = or_undefined (trim form.label);
  }
]

-- `added` answers the call, `loaded` the list after it; the same holds below.
unfoldable pub on_add : Reply Added → Reply AccountsResponse → AccountsPage → Run AccountsPage
unfolding trim load add_account
on_add added loaded s =
    if is_blank (trim s.form.value)
    then (s, warns "请输入 Key 或 Token" ∷ [])
    else attempt (add_account (body_of s.form)) added "添加失败"
        (λ a.
          say (succeeds "已添加账号")
            (load loaded (record s { form = record (s.form) { value = ""; label = "" } })))
        s

-- The patch that turns an account off, or on again with its errors forgotten.
unfoldable pub toggle_patch : String → AccountPatch
toggle_patch current_status =
    if not (same current_status "disabled")
    then record {
      status = some "disabled";
      label = none;
      reset_errors = none;
      blocked_models = none;
      tier = none;
    }
    else record {
      status = some "active";
      label = none;
      reset_errors = some true;
      blocked_models = none;
      tier = none;
    }

-- What the dialog says. The sentinel -1 / -1 stands for an account without a cap.
unfoldable pub rate_limit_text : RateLimitResult → String
unfolding show_int
rate_limit_text r =
    let rest = show_int r.messages_remaining <> " / " <> show_int r.max_messages in
    if is_negative r.messages_remaining && is_negative r.max_messages
    then if r.has_capacity then "✓ 无消息数限流（Pro 套餐不受每 5 分钟硬上限限制）" else "✗ 当前被临时限流"
    else if r.has_capacity
    then "✓ 仍有余量：" <> rest
    else "✗ 已被限流：" <> rest

module _ (encode : String → String) where
  unfoldable pub on_remove :
      String → Reply Success → Reply AccountsResponse → AccountsPage → Run AccountsPage
  unfolding load remove_account
  on_remove id removed loaded s =
      attempt (remove_account encode id) removed "删除失败" (λ a. say (succeeds "已删除") (load loaded s))
        s

  unfoldable pub on_probe_one :
      String → Reply Probed → Reply AccountsResponse → AccountsPage → Run AccountsPage
  unfolding load probe_one
  on_probe_one id probed loaded s =
      attempt (probe_one encode id) probed "探测失败" (λ a. say (succeeds "探测完成") (load loaded s)) s

  unfoldable pub on_refresh_credits :
      String → Reply RefreshCreditsResult → Reply AccountsResponse → AccountsPage → Run AccountsPage
  unfolding load refresh_credits
  on_refresh_credits id refreshed loaded s =
      attempt (refresh_credits encode id) refreshed "刷新失败"
        (λ a. say (succeeds "已刷新余额") (load loaded s)) s

  unfoldable pub on_refresh_tok :
      String → Reply TokenRefreshed → Reply AccountsResponse → AccountsPage → Run AccountsPage
  unfolding load refresh_account_token
  on_refresh_tok id refreshed loaded s =
      attempt (refresh_account_token encode id) refreshed "刷新失败"
        (λ a.
          say (succeeds ("已刷新 token" <> (if a.key_changed then "（API Key 已更新）" else "")))
            (load loaded s))
        s

  unfoldable pub on_set_tier :
      String
      → AccountTier
      → Reply Success
      → Reply AccountsResponse
      → AccountsPage
      → Run AccountsPage
  unfolding load patch_account
  on_set_tier id tier patched loaded s =
      attempt
        (patch_account encode id (record {
          status = none;
          label = none;
          reset_errors = none;
          blocked_models = none;
          tier = some tier;
        }))
        patched "更新失败" (λ a. say (succeeds "层级已更新") (load loaded s)) s

  unfoldable pub handle_tier_change :
      String → String → Reply Success → Reply AccountsResponse → AccountsPage → Run AccountsPage
  unfolding on_set_tier
  handle_tier_change id value patched loaded s =
      if same value "pro" || same value "free" || same value "expired" || same value "unknown"
      then on_set_tier id value patched loaded s
      else (s, [])

  unfoldable pub on_toggle_disabled :
      String → String → Reply Success → Reply AccountsResponse → AccountsPage → Run AccountsPage
  unfolding load patch_account toggle_patch
  on_toggle_disabled id current_status patched loaded s =
      attempt (patch_account encode id (toggle_patch current_status)) patched "操作失败"
        (λ a.
          say (succeeds (if not (same current_status "disabled") then "已停用" else "已启用"))
            (load loaded s))
        s

  unfoldable pub on_rate_limit :
      String → String → Reply RateLimitResult → AccountsPage → Run AccountsPage
  unfolding rate_limit_text check_rate_limit
  on_rate_limit id email reply s =
      attempt (check_rate_limit encode id) reply "查询失败"
        (λ r. (s, informs ("限流额度 · " <> email) (rate_limit_text r) ∷ [])) s

unfoldable pub on_probe_all :
    Reply (Results ProbeResult) → Reply AccountsResponse → AccountsPage → Run AccountsPage
unfolding load show probe_all
on_probe_all probed loaded s =
    attempt probe_all probed "探测失败"
      (λ r. say (succeeds ("已探测 " <> show (length (or_none r.results)) <> " 个账号")) (load loaded s))
      s

unfoldable pub on_refresh_all_credits :
    Reply (Results RefreshCreditsResult) → Reply AccountsResponse → AccountsPage → Run AccountsPage
unfolding load refresh_all_credits
on_refresh_all_credits refreshed loaded s =
    attempt refresh_all_credits refreshed "刷新失败" (λ a. say (succeeds "已刷新全部余额") (load loaded s)) s

-- A tick of the poll timer, ten seconds after the last one: it loads where the tab is not hidden.
unfoldable pub on_poll : Bool → Reply AccountsResponse → AccountsPage → Run AccountsPage
unfolding load
on_poll hidden loaded s = if not hidden then load loaded s else (s, [])
