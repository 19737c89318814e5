-- ===== src/Web/Views/Logs.antt =====
-- web/src/views/Logs.vue: the buffer of the log page, its filter and its stream.
pub mod Buffer
use Prim.Native.String.{◌++◌ as ◌<>◌}
use windsurf_to_api_go.Prelude.{
  ℕ, suc, ◌+◌, ◌-◌, ◌%◌, String, Bool, true, false, not, ◌&&◌, ◌||◌, Option, none, some, List, [],
  ◌∷◌, ◌++◌, ltb, length, drop, map, same, if◌then◌else◌,
}
use windsurf_to_api_go.Prelude.Numbers.{pad_three}
use windsurf_to_api_go.Prelude.Texts.{trim, lower_text, includes, is_blank}
use windsurf_to_api_go.Web.Request.{Browser}
use windsurf_to_api_go.Web.Api.Call.{Reply, resolved, rejected}
use windsurf_to_api_go.Web.Api.LogStream.{
  Sent, null, value, sent_entry, list_logs, stream_url, on_message,
}
use windsurf_to_api_go.Web.Api.Types.Logs.{LogLevel, LogsListResponse}
use windsurf_to_api_go.Web.Views.Page.{Run, attempt, or_none, or_value}

-- `closeStream` is the address of the stream, where it is open.
pub record LogsPage : Type 0 where
  pub entries : List Sent
  pub level_filter : LogLevel
  pub search : String
  pub auto_scroll : Bool
  pub stream : Option String

abbrev pub max_buffer : ℕ
max_buffer = 1000

-- `none` where the test throws, on a value that has not what it reads.
unfoldable pub level_passes : LogLevel → Sent → Option Bool
level_passes filter null = if is_blank filter then some true else none
level_passes filter (value ts level msg) = some (is_blank filter || same (or_value "" level) filter)

unfoldable pub text_passes : String → Sent → Option Bool
unfolding lower_text includes
text_passes q null = if is_blank q then some true else none
text_passes q (value ts level none) = if is_blank q then some true else none
text_passes q (value ts level (some msg)) = some (is_blank q || includes (lower_text msg) q)

-- The second test is not made where the first one fails.
abbrev pub both_pass : Option Bool → Option Bool → Option Bool
both_pass none text = none
both_pass (some false) text = some false
both_pass (some true) text = text

abbrev pub keep_or_throw : Option Bool → Sent → Option (List Sent) → Option (List Sent)
keep_or_throw none e rest = none
keep_or_throw (some passes) e none = none
keep_or_throw (some passes) e (some rest) = some (if passes then e ∷ rest else rest)

unfoldable pub filter_sent : LogLevel → String → List Sent → Option (List Sent)
unfolding level_passes text_passes
filter_sent level q [] = some []
filter_sent level q (e ∷ rest) =
    keep_or_throw (both_pass (level_passes level e) (text_passes q e)) e (filter_sent level q rest)

unfoldable pub filtered : LogsPage → Option (List Sent)
unfolding filter_sent trim lower_text
filtered s = filter_sent s.level_filter (lower_text (trim s.search)) s.entries

unfoldable pub push : Sent → LogsPage → LogsPage
push e s =
    let pushed = s.entries ++ e ∷ [] in
    record s {
      entries =
          if ltb max_buffer (length pushed)
          then drop (length pushed - max_buffer) pushed
          else pushed;
    }

-- The first load, and the opening of the stream, whose entries `push` takes.
unfoldable pub bootstrap :
    (String → String)
    → (String → String)
    → Reply LogsListResponse
    → Browser
    → LogsPage
    → Run LogsPage × Browser
unfolding list_logs stream_url
bootstrap form_encode encode reply b s =
    let r =
      attempt (list_logs form_encode (record { since = none; level = none })) reply "加载日志失败"
        (λ a. (record s { entries = map sent_entry (or_none a.logs) }, [])) s in
    let url = stream_url encode b in ((record (r.0) { stream = some url.0 }, r.1), url.1)

-- A frame of the stream.
unfoldable pub receive : Option Sent → LogsPage → LogsPage
unfolding on_message push
receive frame s = on_message push frame s

unfoldable pub clear_view : LogsPage → LogsPage
clear_view s = record s { entries = [] }

-- `to_time` is `toLocaleTimeString` of the browser.
unfoldable pub fmt_ts : (ℕ → String) → ℕ → String
unfolding pad_three
fmt_ts to_time ts = to_time ts <> "." <> pad_three (ts % 1000)

unfoldable pub level_color : LogLevel → String
level_color lvl =
    if same lvl "error"
    then "error"
    else if same lvl "warn"
    then "warning"
    else if same lvl "info"
    then "processing"
    else "default"

unfoldable pub on_unmounted : LogsPage → LogsPage
on_unmounted s = record s { stream = none }
