-- ===== src/Web/Api/LogStream.antt =====
-- web/src/api/logs.ts: the list of logs, and the stream of new ones.
use Prim.Native.String.{◌++◌ as ◌<>◌}
use windsurf_to_api_go.Prelude.{
  ℕ, String, Option, none, some, List, [], ◌∷◌, ◌++◌, ◌==◌, if◌then◌else◌,
}
use windsurf_to_api_go.Prelude.Numbers.{show}
use windsurf_to_api_go.Prelude.Texts.{join_texts, is_blank}
use windsurf_to_api_go.Web.Request.{Browser, get_stored_password}
use windsurf_to_api_go.Web.Api.Call
use windsurf_to_api_go.Web.Api.Call.{Call}
use windsurf_to_api_go.Web.Api.Types.Logs.{LogEntry, LogLevel, LogsListResponse}

pub record LogsQuery : Type 0 where
  pub since : Option ℕ
  pub level : Option String

abbrev since_param : Option ℕ → List String
since_param none = []
since_param (some since) = if since == 0 then [] else ("since=" <> show since) ∷ []

-- `form_encode` is how `URLSearchParams` prints a value.
abbrev level_param : (String → String) → Option String → List String
level_param form_encode none = []
level_param form_encode (some level) =
    if is_blank level then [] else ("level=" <> form_encode level) ∷ []

unfoldable pub list_logs : (String → String) → LogsQuery → Call LogsListResponse
unfolding join_texts
list_logs form_encode params =
    let tail = join_texts "&" (since_param params.since ++ level_param form_encode params.level) in
    Call.get ("/logs" <> (if is_blank tail then "" else "?" <> tail))

-- The address that the stream is opened at.
unfoldable pub stream_url : (String → String) → Browser → String × Browser
unfolding get_stored_password
stream_url encode b =
    let found = get_stored_password b in
    (
      "/dashboard/api/logs/stream" <> (if is_blank found.0 then "" else "?pw=" <> encode found.0),
      found.1,
    )

-- What a frame's JSON holds. The source casts it to a `LogEntry` without a check, so it is any value:
-- null, or one whose properties are there with the entry's types or not.
pub data Sent : Type 0 where
  null : Sent
  value : Option ℕ → Option LogLevel → Option String → Sent

abbrev pub sent_entry : LogEntry → Sent
sent_entry e = value (some e.ts) (some e.level) (some e.msg)

-- `onmessage`, with the frame as `JSON.parse` reads it, if it does: `on_entry` acts on the state of
-- the view.
unfoldable pub on_message : {S : Type 0} → (Sent → S → S) → Option Sent → S → S
on_message on_entry none s = s
on_message on_entry (some sent) s = on_entry sent s
