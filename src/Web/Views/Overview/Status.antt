-- ===== src/Web/Views/Overview/Status.antt =====
-- web/src/views/Overview.vue: the histogram of the upstream's status codes.
use windsurf_to_api_go.Prelude.{
  ℕ, ◌+◌, String, Bool, ◌&&◌, Option, none, some, List, [], ◌∷◌, map, ltb, leb, same, if◌then◌else◌,
}
use windsurf_to_api_go.Prelude.Dict.{Dict}
use windsurf_to_api_go.Prelude.Dict
use windsurf_to_api_go.Prelude.Sorting.{sort_by, higher}
use windsurf_to_api_go.Web.Api.Types.Overview.{OverviewPayload}
use windsurf_to_api_go.Web.Views.Overview.{OverviewPage}

abbrev pub status_reason : Dict String
status_reason =
    ("0", "传输错误")
    ∷ ("200", "正常")
    ∷ ("201", "已创建")
    ∷ ("204", "无内容")
    ∷ ("301", "永久重定向")
    ∷ ("302", "临时重定向")
    ∷ ("304", "未修改")
    ∷ ("400", "请求错误")
    ∷ ("401", "未授权")
    ∷ ("403", "拒绝访问")
    ∷ ("404", "未找到")
    ∷ ("408", "请求超时")
    ∷ ("409", "资源冲突")
    ∷ ("413", "负载过大")
    ∷ ("422", "参数无效")
    ∷ ("429", "限流")
    ∷ ("499", "客户端中断")
    ∷ ("500", "上游内部错误")
    ∷ ("501", "未实现")
    ∷ ("502", "网关错误")
    ∷ ("503", "服务不可用")
    ∷ ("504", "连接超时")
    ∷ ("520", "CDN 未知错误")
    ∷ ("521", "上游离线")
    ∷ ("522", "连接超时")
    ∷ ("524", "上游响应超时")
    ∷ []

-- `between n low` is `n >= low && n < low + 100`.
abbrev between : ℕ → ℕ → Bool
between n low = leb low n && ltb n (low + 100)

abbrev class_reason : Option ℕ → String
class_reason none = "未知"
class_reason (some n) =
    if between n 200
    then "成功"
    else if between n 300
    then "重定向"
    else if between n 400
    then "客户端错误"
    else if between n 500
    then "服务端错误"
    else "未知"

-- `number` is JavaScript's `Number`, with `none` for a text that is no finite number.
unfoldable pub reason_for : (String → Option ℕ) → String → String
unfolding Dict.get
reason_for number code = elim (Dict.get code status_reason) [
  | some reason ↦ reason
  | none ↦ class_reason (number code)
]

pub record StatusRow : Type 0 where
  pub code : String
  pub count : ℕ
  pub label : String
  pub tone : String

abbrev class_tone : Option ℕ → String
class_tone none = "default"
class_tone (some n) =
    if between n 200
    then "success"
    else if between n 300
    then "info"
    else if between n 400
    then "warning"
    else if leb 500 n
    then "danger"
    else "default"

unfoldable pub status_row : (String → Option ℕ) → String × ℕ → StatusRow
unfolding reason_for
status_row number entry = record {
  code = entry.0;
  count = entry.1;
  label = reason_for number entry.0;
  tone = if same entry.0 "0" then "default" else class_tone (number entry.0);
}

abbrev pub statuses_of : Option OverviewPayload → Dict ℕ
statuses_of none = []
statuses_of (some d) = d.upstream_status

unfoldable pub status_rows : (String → Option ℕ) → OverviewPage → List StatusRow
unfolding status_row sort_by
status_rows number s =
    sort_by (higher (λ r. r.count)) (map (status_row number) (statuses_of s.data_))

unfoldable pub sum_counts : List StatusRow → ℕ
sum_counts [] = 0
sum_counts (r ∷ rows) = r.count + sum_counts rows

unfoldable pub total_status_count : (String → Option ℕ) → OverviewPage → ℕ
unfolding status_rows sum_counts
total_status_count number s = sum_counts (status_rows number s)
