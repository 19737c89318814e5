-- ===== src/Web/Session.antt =====
-- The dashboard's session: web/src/stores/auth.ts, the guard and the handlers of web/src/router/index.ts,
-- and the two views that log in and out, views/Login.vue and layouts/BasicLayout.vue. An `await`ed
-- probe is answered within its event. The `/auth` route is open on the server, so a probe is answered
-- or fails, and is not refused with status 401.
pub mod Steps
pub mod Guarded
pub mod LockedOut
pub mod Login
use text.Mathlib.Text
use windsurf_to_api_go.Prelude.{
  String, Bool, true, false, not, ◌&&◌, ◌||◌, Option, none, some, List, [], ◌∷◌, same,
  if◌then◌else◌,
}
use windsurf_to_api_go.Web.Request.{Browser, get_stored_password, set_stored_password}

pub record AuthProbe : Type 0 where
  pub required : Bool
  pub valid : Option Bool

-- The answer to `probeAuth`, or nothing where the call is rejected.
abbrev pub Answer : Type 0
Answer = Option AuthProbe

pub record AuthStore : Type 0 where
  pub required : Bool
  pub authenticated : Bool
  pub password : String
  pub ready : Bool

unfoldable pub init : Browser → AuthStore × Browser
unfolding get_stored_password
init b =
    let found = get_stored_password b in
    (record { required = false; authenticated = false; password = found.0; ready = false }, found.1)

abbrev pub is_valid : Option Bool → Bool
is_valid none = false
is_valid (some v) = v

-- `probe`; a rejected call leaves the store as it is, and is passed on.
unfoldable pub probe : Answer → AuthStore → AuthStore
probe none s = s
probe (some p) s = record s {
  required = p.required;
  authenticated = not (p.required) || is_valid (p.valid);
  ready = true;
}

unfoldable pub logout : AuthStore × Browser → AuthStore × Browser
unfolding set_stored_password
logout (s, b) =
    (record s { password = ""; authenticated = not (s.required) }, set_stored_password "" b)

-- The named routes.
pub data RouteName : Type 0 where
  login_route : RouteName
  overview : RouteName
  stats : RouteName
  login_take : RouteName
  accounts : RouteName
  bans : RouteName
  models : RouteName
  proxy : RouteName
  logs : RouteName
  experimental : RouteName

pub record RouteRecord : Type 0 where
  pub path : String
  pub name : RouteName
  pub title : String

abbrev pub routes : List RouteRecord
routes =
    record { path = "/login"; name = login_route; title = "控制台登录" }
    ∷ record { path = "/overview"; name = overview; title = "仪表盘" }
    ∷ record { path = "/stats"; name = stats; title = "统计分析" }
    ∷ record { path = "/login-take"; name = login_take; title = "登录取号" }
    ∷ record { path = "/accounts"; name = accounts; title = "账号管理" }
    ∷ record { path = "/bans"; name = bans; title = "异常监测" }
    ∷ record { path = "/models"; name = models; title = "模型控制" }
    ∷ record { path = "/proxy"; name = proxy; title = "代理配置" }
    ∷ record { path = "/logs"; name = logs; title = "运行日志" }
    ∷ record { path = "/experimental"; name = experimental; title = "实验性功能" }
    ∷ []

-- `meta.public`.
unfoldable pub is_public : RouteName → Bool
is_public login_route = true
is_public _ = false

-- The record of a path, if it has one; `/` and all other paths are redirected to `/overview`.
unfoldable pub resolve_in : List RouteRecord → String → RouteName
resolve_in [] path = overview
resolve_in (r ∷ rs) path = if same (r.path) path then r.name else resolve_in rs path

-- The path has a record of its own.
unfoldable pub has_record : List RouteRecord → String → Bool
has_record [] path = false
has_record (r ∷ rs) path = same (r.path) path || has_record rs path

-- A resolved address: its route, its full path, and the `redirect` of its query.
pub record Location : Type 0 where
  pub name : RouteName
  pub full_path : String
  pub redirect : Option String

-- The page of the browser; `current` is `none` before the first navigation has ended.
pub record Page : Type 0 where
  pub store : AuthStore
  pub browser : Browser
  pub current : Option Location

pub data Verdict : Type 0 where
  pass : Verdict
  to_login : String → Verdict

-- The probe of a guard that finds the store not ready.
unfoldable pub probe_once : Answer → AuthStore → AuthStore
unfolding probe
probe_once answer s = if s.ready then s else probe answer s

unfoldable pub before_each : Answer → Location → AuthStore → Verdict × AuthStore
unfolding probe_once is_public
before_each answer to s =
    let s' = probe_once answer s in
    if is_public (to.name)
    then (pass, s')
    else if not (s'.authenticated)
    then (to_login (to.full_path), s')
    else (pass, s')

abbrev pub login_location : Option String → Location
login_location redirect = record { name = login_route; full_path = "/login"; redirect = redirect }

-- The login page is public, so its own guard, which probes once more if the store is not ready, passes.
unfoldable pub to_login_page : Answer → Option String → Page → Page
unfolding probe_once
to_login_page answer redirect p = record p {
  store = probe_once answer (p.store);
  current = some (login_location redirect);
}

-- A navigation, with the answers to the probes of its guard and of the guard of a redirection.
unfoldable pub navigate : Answer → Answer → Location → Page → Page
unfolding before_each to_login_page
navigate answer second to p =
    let guarded = before_each answer to (p.store) in
    elim (guarded.0) [
      | pass ↦ record p { store = guarded.1; current = some to }
      | to_login path ↦ to_login_page second (some path) (record p { store = guarded.1 })
    ]

-- `current.name !== 'Login'`, where the page before the first navigation has no name.
unfoldable pub is_on_login : Page → Bool
unfolding is_public
is_on_login p = elim (p.current) [ none ↦ false | some here ↦ is_public (here.name) ]

abbrev pub path_here : Option Location → String
path_here none = "/"
path_here (some here) = here.full_path

-- The handler of an answer with status 401.
unfoldable pub on_unauthorized : Answer → Page → Page
unfolding is_on_login to_login_page
on_unauthorized answer p =
    let locked = record p { store = record (p.store) { authenticated = false } } in
    if is_on_login p then locked else to_login_page answer (some (path_here (p.current))) locked

-- `onLogout` of the layout.
unfoldable pub on_logout : Answer → Page → Page
unfolding logout to_login_page
on_logout answer p =
    let left = logout (p.store, p.browser) in
    to_login_page answer none (record p { store = left.0; browser = left.1 })
