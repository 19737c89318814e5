-- ===== src/Web/Views/Stats/Columns.antt =====
-- web/src/views/Stats.vue: the columns of its two tables, and how each cell is rendered.
use windsurf_to_api_go.Prelude.{ℕ, String, Bool, true, false, Option, none, some, List, [], ◌∷◌}
use windsurf_to_api_go.Web.Views.Page.{Column}
use windsurf_to_api_go.Web.Views.Stats.{LocalTime, fmt_ts, fmt_ms}

-- `custom_render` is the text of a number, where the column has its own; `header_title` is the hint of
-- the header.
pub record ModelColumn : Type 0 where
  pub column : Column
  pub custom_render : Option (ℕ → String)
  pub header_title : Option String

abbrev plain : String → String → ℕ → ModelColumn
plain title index width = record {
  column = record {
    title = title;
    data_index = index;
    width = some width;
    ellipsis = false;
    fixed = none;
  };
  custom_render = none;
  header_title = none;
}

abbrev rendered : String → String → ℕ → Option String → (ℕ → String) → ModelColumn
rendered title index width hint render = record {
  column = record {
    title = title;
    data_index = index;
    width = some width;
    ellipsis = false;
    fixed = none;
  };
  custom_render = some render;
  header_title = hint;
}

abbrev time_text : (ℕ → LocalTime) → ℕ → String
time_text local_time n = fmt_ts local_time (some n)

abbrev duration_text : ℕ → String
duration_text n = fmt_ms (some n)

unfoldable pub model_columns : (ℕ → LocalTime) → List ModelColumn
unfolding fmt_ts fmt_ms
model_columns local_time =
    record {
      column = record {
        title = "模型";
        data_index = "model";
        width = none;
        ellipsis = true;
        fixed = some "left";
      };
      custom_render = none;
      header_title = none;
    }
    ∷ rendered "首次请求时间" "firstAt" 120 none (time_text local_time)
    ∷ rendered "首次请求耗时" "firstMs" 120 none duration_text
    ∷ rendered "末次请求时间" "lastAt" 120 none (time_text local_time)
    ∷ rendered "末次请求耗时" "lastMs" 120 none duration_text
    ∷ plain "请求" "requests" 80
    ∷ plain "成功" "success" 80
    ∷ plain "错误" "errors" 80
    ∷ plain "成功率" "rate" 90
    ∷ rendered "平均耗时" "avgMs" 110 none duration_text
    ∷ rendered "中位延迟" "p50Ms" 110 (some "p50 · 50% 的请求不超过此耗时") duration_text
    ∷ rendered "尾部延迟" "p95Ms" 110 (some "p95 · 95% 的请求不超过此耗时（反映慢请求）") duration_text
    ∷ []

abbrev column : String → String → Option ℕ → Bool → Column
column title index width ellipsis = record {
  title = title;
  data_index = index;
  width = width;
  ellipsis = ellipsis;
  fixed = none;
}

abbrev pub account_columns : List Column
account_columns =
    column "账号 ID" "id" (some 120) false
    ∷ column "邮箱 / 标签" "email" none true
    ∷ column "请求" "requests" (some 100) false
    ∷ column "成功" "success" (some 100) false
    ∷ column "错误" "errors" (some 100) false
    ∷ column "成功率" "rate" (some 120) false
    ∷ []
