-- ===== src/Web/Views/Accounts/Rows.antt =====
-- web/src/views/Accounts.vue: what the rows of the table show.
use Prim.Native.String.{◌++◌ as ◌<>◌}
use windsurf_to_api_go.Prelude.{
  ℕ, ◌*◌, String, Bool, true, false, not, ◌&&◌, ◌||◌, ◌==◌, Option, none, some, List, [], ◌∷◌, ◌++◌,
  map, same, if◌then◌else◌,
}
use windsurf_to_api_go.Prelude.Numbers.{Fraction, at_most, show, round_div}
use windsurf_to_api_go.Prelude.Texts.{is_blank, join_texts, first_chars}
use windsurf_to_api_go.Web.Request.{truthy, or_empty}
use windsurf_to_api_go.Web.Api.Types.Accounts.{AccountRow, AccountCredits}
use windsurf_to_api_go.Web.Views.Page.{is_some, Column}

pub record CreditsView : Type 0 where
  pub daily : Option Fraction
  pub weekly : Option Fraction
  pub has_error : Bool
  pub has_data : Bool

unfoldable pub credits_view : Option AccountCredits → CreditsView
credits_view none = record { daily = none; weekly = none; has_error = false; has_data = false }
credits_view (some c) = record {
  daily = c.daily_percent;
  weekly = c.weekly_percent;
  has_error = truthy c.last_error;
  has_data = not (truthy c.last_error) && (is_some c.daily_percent || is_some c.weekly_percent);
}

unfoldable pub pct_class : Option Fraction → String
pct_class none = "pct-muted"
pct_class (some p) =
    if at_most p 10 then "pct-danger" else if at_most p 30 then "pct-warn" else "pct-ok"

abbrev text_part : String → Option String → List String
text_part prefix t = if truthy t then (prefix <> or_empty t) ∷ [] else []

abbrev percent_part : String → Option Fraction → List String
percent_part prefix none = []
percent_part prefix (some p) = (prefix <> show (round_div p.num p.den) <> "%") ∷ []

-- `to_locale` is `new Date(t).toLocaleString()`; a time of zero is none.
abbrev time_part : (ℕ → String) → ℕ → String → Option ℕ → List String
time_part to_locale unit prefix none = []
time_part to_locale unit prefix (some t) =
    if t == 0 then [] else (prefix <> to_locale (t * unit)) ∷ []

unfoldable pub credits_title : (ℕ → String) → Option AccountCredits → String
unfolding join_texts show
credits_title to_locale none = "尚未刷新"
credits_title to_locale (some c) =
    if truthy c.last_error
    then "刷新失败：" <> or_empty c.last_error
    else join_texts " · " (
        text_part "套餐：" c.plan_name
        ++ percent_part "日额度：剩余 " c.daily_percent
        ++ percent_part "周额度：剩余 " c.weekly_percent
        ++ time_part to_locale 1000 "日重置：" c.daily_reset_at
        ++ time_part to_locale 1000 "周重置：" c.weekly_reset_at
        ++ time_part to_locale 1 "取数时间：" c.fetched_at)

unfoldable pub status_color : String → String
status_color status =
    if same status "active"
    then "success"
    else if same status "error"
    then "error"
    else if same status "expired"
    then "warning"
    else "default"

unfoldable pub status_label : String → String
status_label status =
    if same status "active"
    then "正常"
    else if same status "error"
    then "错误"
    else if same status "expired"
    then "已过期"
    else if same status "invalid"
    then "无效"
    else if same status "disabled"
    then "已停用"
    else if is_blank status
    then "—"
    else status

abbrev column : String → String → ℕ → Column
column title index width = record {
  title = title;
  data_index = index;
  width = some width;
  ellipsis = false;
  fixed = none;
}

-- The last column has a key in place of the index of a field.
abbrev pub columns : List Column
columns =
    column "ID" "idShort" 90
    ∷ record {
      title = "邮箱 / 标签";
      data_index = "email";
      width = none;
      ellipsis = true;
      fixed = none;
    }
    ∷ column "层级" "tier" 110
    ∷ column "RPM" "rpm" 90
    ∷ column "余额" "credits" 96
    ∷ column "可用模型" "availableModels" 110
    ∷ column "状态" "status" 110
    ∷ column "最近探测" "lastProbed" 150
    ∷ column "Key" "keyPrefix" 120
    ∷ record {
      title = "操作";
      data_index = "actions";
      width = some 300;
      ellipsis = false;
      fixed = some "right";
    }
    ∷ []

unfoldable pub display_rows : List AccountRow → List (AccountRow × String)
unfolding first_chars
display_rows accounts = map (λ a. (a, first_chars 8 a.id)) accounts
