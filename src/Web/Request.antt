-- ===== src/Web/Request.antt =====
-- web/src/api/request.ts: the password in the browser's storages, the interceptors and the client.
pub mod Storage
use windsurf_to_api_go.Prelude.{
  ℕ, String, Bool, true, false, not, Option, none, some, List, [], ◌∷◌, same, ◌==◌, if◌then◌else◌,
}
use windsurf_to_api_go.Prelude.Dict.{Dict}
use windsurf_to_api_go.Prelude.Dict

abbrev pub dashboard_password_key : String
dashboard_password_key = "windsurfapi:dashboard-password"

-- The two storages, and whether a `removeItem` of the persistent one throws.
pub record Browser : Type 0 where
  pub session : Dict String
  pub local : Dict String
  pub local_is_locked : Bool

-- A text that is present and not empty, as an `if` on it tests.
abbrev pub truthy : Option String → Bool
truthy none = false
truthy (some s) = not (same s "")

abbrev pub or_empty : Option String → String
or_empty none = ""
or_empty (some s) = s

unfoldable pub get_stored_password : Browser → String × Browser
unfolding Dict.get Dict.put Dict.delete
get_stored_password b =
    let cached = Dict.get dashboard_password_key b.session in
    let legacy = Dict.get dashboard_password_key b.local in
    if truthy cached
    then (or_empty cached, b)
    else if truthy legacy
    then (
      or_empty legacy,
      record b {
        session = Dict.put dashboard_password_key (or_empty legacy) b.session;
        local = if b.local_is_locked then b.local else Dict.delete dashboard_password_key b.local;
      },
    )
    else ("", b)

unfoldable pub set_stored_password : String → Browser → Browser
unfolding Dict.put Dict.delete
set_stored_password pw b = record b {
  session =
      if same pw ""
      then Dict.delete dashboard_password_key b.session
      else Dict.put dashboard_password_key pw b.session;
}

-- A request as the client sends it; the body is of a type that the client only passes on.
pub data Method : Type 0 where
  get_method : Method
  post_method : Method
  put_method : Method
  patch_method : Method
  delete_method : Method

pub record Request (B : Type 0) : Type 0 where
  pub base_url : String
  pub method : Method
  pub url : String
  pub data_ : Option B
  pub headers : Dict String

-- The request interceptor.
unfoldable pub with_password : {B : Type 0} → Request B → Browser → Request B × Browser
unfolding get_stored_password Dict.put
with_password config b =
    let found = get_stored_password b in
    (
      (if same found.0 ""
          then config
          else record config { headers = Dict.put "X-Dashboard-Password" found.0 config.headers }),
      found.1,
    )

-- A rejected call: the response's status and its body's `error`, where there was a response, and the
-- message of the client itself.
pub record AxiosError : Type 0 where
  pub response : Option (ℕ × Option String)
  pub message : Option String

pub record ApiError : Type 0 where
  pub msg : String
  pub status : ℕ

abbrev pub or_else : Option String → String → String
or_else none s = s
or_else (some t) s = t

abbrev pub status_of : AxiosError → Option ℕ
status_of e = elim (e.response) [ none ↦ none | some r ↦ some r.0 ]

abbrev pub error_of : AxiosError → Option String
error_of e = elim (e.response) [ none ↦ none | some r ↦ r.1 ]

-- The response interceptor's second function: the error of the caller, and whether the handler of
-- unauthorized answers is called.
unfoldable pub on_rejected : AxiosError → ApiError × Bool
on_rejected err = elim (status_of err) [
  | none ↦
      (record { msg = or_else (error_of err) (or_else (err.message) "请求失败"); status = 0 }, false)
  | some status ↦ if status == 401 then (record { msg = "未登录或密码错误"; status = 401 }, true) else (
    record { msg = or_else (error_of err) (or_else (err.message) "请求失败"); status = status },
    false,
  )
]

-- `request` on the dashboard's client, up to the network.
unfoldable pub prepare : {B : Type 0} → Method → String → Option B → Browser → Request B × Browser
unfolding with_password
prepare method path body b =
    with_password
      (record {
        base_url = "/dashboard/api";
        method = method;
        url = path;
        data_ = body;
        headers = ("Content-Type", "application/json") ∷ [];
      })
      b

-- What `toast` shows: an `ApiError` and any other `Error` alike show their message, if it is not empty.
unfoldable pub toast : Option String → String → String
toast none fallback = fallback
toast (some message) fallback = if same message "" then fallback else message
