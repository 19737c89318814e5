-- ===== src/Tests/Forms.antt =====
-- The dashboard's forms, charts and sign-ins on concrete answers.
use windsurf_to_api_go.Prelude.{String, true, false, none, some, [], ◌∷◌, take, ◌≡◌, refl}
use Prim.Native.String.{◌++◌ as ◌<>◌}
use windsurf_to_api_go.Prelude.Texts.{trim}
use windsurf_to_api_go.Web.Api.Call.{Reply, resolved, rejected}
use windsurf_to_api_go.Web.Api.Types.Proxy.{ProxySpec}
use windsurf_to_api_go.Web.Views.HostPort.{split_host_port, digits_value, one_line}
use windsurf_to_api_go.Web.Views.HostPort.Shape.{split_host_port-append}
use windsurf_to_api_go.Web.FirebaseOAuth.{
  FirebaseConfig, firebase_config, FirebaseBundle, Loader, google, github,
}
use windsurf_to_api_go.Web.FirebaseOAuth.Once.{sign_ins, answers, sign_ins-answers}
use windsurf_to_api_go.Web.Views.LoginTake.{HistoryRow, LoginPage, absent, load_history}
use windsurf_to_api_go.Web.Views.LoginTake.History.{
  record_all, newest_first, record_all-load_history,
}

split_host_port-append_example :
    split_host_port (some ("fe80::1" <> ":" <> "8080")) none ≡ (some "fe80::1", some 8080)
unfolding one_line digits_value trim
split_host_port-append_example =
    split_host_port-append "fe80::1" "8080" 8080 refl refl refl refl refl

abbrev blocked : FirebaseConfig → Reply FirebaseBundle
blocked config = rejected (some "blocked")

abbrev reachable : FirebaseConfig → Reply FirebaseBundle
reachable config = resolved (record { sign_in_with_popup = λ request. rejected none })

abbrev nothing_loaded : Loader
nothing_loaded = record { init_promise = none; loads = 0 }

-- A first load that fails is the answer to the second sign-in as well, though the SDK is reachable then.
sign_ins-answers_example :
    ((sign_ins ((blocked, google) ∷ (reachable, github) ∷ []) nothing_loaded).0
      ≡ answers (blocked firebase_config) (google ∷ github ∷ []))
    × ((sign_ins ((blocked, google) ∷ (reachable, github) ∷ []) nothing_loaded).1.loads ≡ 1)
sign_ins-answers_example =
    sign_ins-answers blocked google ((reachable, github) ∷ []) nothing_loaded refl

abbrev login_row : String → HistoryRow
login_row email = record {
  ts = 1;
  email = email;
  ok = true;
  proxy = none;
  error = none;
  method = "email";
}

abbrev no_spec : ProxySpec
no_spec = record {
  type_ = some "http";
  host = some "";
  port = none;
  user = some "";
  pass = some "";
}

abbrev login_page : LoginPage
login_page = record {
  form = record { email = ""; password = ""; auto_add = true };
  proxy = no_spec;
  proxy_result = "";
  testing = false;
  submitting = false;
  oauth_busy = none;
  result = none;
  history = [];
  storage = absent;
}

record_all-load_history_example :
    ((record_all (login_row "a" ∷ login_row "b" ∷ []) login_page).history
      ≡ take 50 (newest_first (login_row "a" ∷ login_row "b" ∷ []) []))
    × ((load_history (record login_page {
      storage = (record_all (login_row "a" ∷ login_row "b" ∷ []) login_page).storage;
    })).history
        ≡ (record_all (login_row "a" ∷ login_row "b" ∷ []) login_page).history)
record_all-load_history_example =
    record_all-load_history (login_row "a") (login_row "b" ∷ []) login_page login_page
