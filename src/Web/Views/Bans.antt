-- ===== src/Web/Views/Bans.antt =====
-- web/src/views/Bans.vue: the state of the page, its handlers, the clock and the order of its rows.
pub mod Windows
pub mod Order
use windsurf_to_api_go.Prelude.{
  ℕ, suc, ◌+◌, ◌%◌, String, Bool, true, false, not, ◌&&◌, Option, none, some, List, [], ◌∷◌, ◌++◌,
  ◌==◌, leb, ltb, length, keep_if, map, same, if◌then◌else◌,
}
use windsurf_to_api_go.Prelude.Sorting.{sort_by, higher}
use windsurf_to_api_go.Web.Api.Call
use windsurf_to_api_go.Web.Api.Call.{Call, Reply, resolved, rejected}
use windsurf_to_api_go.Web.Api.Calls.{list_accounts, patch_account, Success}
use windsurf_to_api_go.Web.Api.Types.Accounts.{AccountRow, AccountsResponse, AccountPatch}
use windsurf_to_api_go.Web.Views.Page.{Run, succeeds, say, attempt, or_none, Column}

pub record BanHistoryEntry : Type 0 where
  pub ts : ℕ
  pub account_id : String
  pub email : String
  pub model : Option String
  pub server_ms : ℕ
  pub effective_ms : ℕ
  pub until : ℕ

pub record HistoryResponse : Type 0 where
  pub entries : Option (List BanHistoryEntry)

pub record BansPage : Type 0 where
  pub accounts : List AccountRow
  pub loading : Bool
  pub history : List BanHistoryEntry
  pub history_loading : Bool
  pub tick : ℕ

unfoldable pub load : Reply AccountsResponse → BansPage → Run BansPage
unfolding list_accounts
load reply s =
    let r =
      attempt list_accounts reply "加载失败" (λ a. (record s { accounts = or_none a.accounts }, []))
        s in
    (record (r.0) { loading = false }, r.1)

abbrev history_call : Call HistoryResponse
history_call = Call.get "/bans/history?limit=200"

unfoldable pub load_history : Reply HistoryResponse → BansPage → Run BansPage
load_history reply s =
    let r =
      attempt history_call reply "加载历史失败" (λ a. (record s { history = or_none a.entries }, [])) s in
    (record (r.0) { history_loading = false }, r.1)

abbrev clear_call : Call Success
clear_call = Call.delete "/bans/history"

unfoldable pub clear_history : Reply Success → BansPage → Run BansPage
clear_history reply s =
    attempt clear_call reply "清空失败" (λ a. (record s { history = [] }, succeeds "已清空历史" ∷ [])) s

-- Both loads. They run side by side, and write different fields.
unfoldable pub load_both : Reply AccountsResponse → Reply HistoryResponse → BansPage → Run BansPage
unfolding load load_history
load_both accounts history s =
    let r = load accounts s in let q = load_history history r.0 in (q.0, r.1 ++ q.1)

-- One tick of the clock of a second: each tenth one loads again, where the tab is not hidden.
unfoldable pub on_tick :
    Bool → Reply AccountsResponse → Reply HistoryResponse → BansPage → Run BansPage
unfolding load_both
on_tick hidden accounts history s =
    if suc s.tick % 10 == 0 && not hidden
    then load_both accounts history (record s { tick = suc s.tick })
    else (record s { tick = suc s.tick }, [])

unfoldable pub severity_score : AccountRow → ℕ
severity_score a =
    if same a.status "error"
    then 50
    else if same a.status "expired"
    then 40
    else if same a.status "invalid"
    then 35
    else if a.rate_limited
    then 30
    else if same a.status "disabled"
    then 10
    else 0

unfoldable pub sorted_accounts : List AccountRow → List AccountRow
unfolding sort_by severity_score
sorted_accounts accounts = sort_by (higher severity_score) accounts

pub record BanCounts : Type 0 where
  pub error : ℕ
  pub expired : ℕ
  pub rate_limited : ℕ
  pub throttled : ℕ
  pub disabled : ℕ

abbrev has_status : String → AccountRow → Bool
has_status status a = same a.status status

unfoldable pub counts : List AccountRow → BanCounts
counts accounts = record {
  error = length (keep_if (has_status "error") accounts);
  expired = length (keep_if (has_status "expired") accounts);
  rate_limited = length (keep_if (λ a. a.rate_limited) accounts);
  throttled = length (keep_if (λ a. ltb 0 (length (or_none a.rate_limited_models))) accounts);
  disabled = length (keep_if (has_status "disabled") accounts);
}

abbrev reset_patch : AccountPatch
reset_patch = record {
  status = some "active";
  label = none;
  reset_errors = some true;
  blocked_models = none;
  tier = none;
}

unfoldable pub on_reset :
    (String → String) → String → Reply Success → Reply AccountsResponse → BansPage → Run BansPage
unfolding load patch_account
on_reset encode id patched loaded s =
    attempt (patch_account encode id reset_patch) patched "操作失败"
      (λ a. say (succeeds "已恢复") (load loaded s)) s

-- A row of the history is shown as active until its window ends.
unfoldable pub history_rows : ℕ → List BanHistoryEntry → List (BanHistoryEntry × Bool)
history_rows now history = map (λ e. (e, ltb now e.until)) history

abbrev column : String → String → Option ℕ → Bool → Column
column title index width ellipsis = record {
  title = title;
  data_index = index;
  width = width;
  ellipsis = ellipsis;
  fixed = none;
}

abbrev pub columns : List Column
columns =
    column "账号" "email" none true
    ∷ column "状态" "status" (some 110) false
    ∷ column "层级" "tier" (some 80) false
    ∷ column "限流" "rateLimited" (some 90) false
    ∷ column "限速" "rateLimit" (some 300) false
    ∷ column "最近探测" "lastProbed" (some 170) false
    ∷ column "操作" "actions" (some 380) false
    ∷ []

abbrev pub history_columns : List Column
history_columns =
    column "发生时间" "ts" (some 170) false
    ∷ column "账号" "email" none true
    ∷ column "范围" "scope" (some 200) false
    ∷ column "上游时长" "serverMs" (some 110) false
    ∷ column "生效时长" "effectiveMs" (some 110) false
    ∷ column "解除时间" "until" (some 170) false
    ∷ column "当前状态" "active" (some 100) false
    ∷ []
