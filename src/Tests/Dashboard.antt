-- ===== src/Tests/Dashboard.antt =====
-- The dashboard on a concrete session and concrete texts.
use windsurf_to_api_go.Prelude.{
  String, true, false, Option, none, some, List, [], ◌∷◌, same, ◌≡◌, refl, if◌then◌else◌,
}
use windsurf_to_api_go.Prelude.Dict
use windsurf_to_api_go.Models.DisplayName
use windsurf_to_api_go.Web.Request.{
  Browser, dashboard_password_key, or_empty, get_stored_password, set_stored_password,
}
use windsurf_to_api_go.Web.Request.Storage.{get-set_stored_password}
use windsurf_to_api_go.Web.Session.{AuthProbe, Page, login_location, is_public}
use windsurf_to_api_go.Web.Session.Steps.{Event, visit, refused, submitted, left, run}
use windsurf_to_api_go.Web.Session.Guarded.{IsGuarded, is_open, run-IsGuarded}
use windsurf_to_api_go.Web.Session.LockedOut.{refused-IsOut}
use windsurf_to_api_go.Web.ModelName.{display_model_name}
use windsurf_to_api_go.Web.ModelName.Agreement.{display_model_name-display_name}
use windsurf_to_api_go.Web.I18n.{
  Value, table, row, no_rows, other, zh_cn, en, Locale, State, translate, fallback_locale,
  override_text,
}
use windsurf_to_api_go.Web.I18n

abbrev browser : Browser
browser = record {
  session = [];
  local = (dashboard_password_key, "old") ∷ [];
  local_is_locked = true;
}

get-set_stored_password_example :
    (get_stored_password (set_stored_password "" browser)).0
    ≡ (if same "" "" then or_empty (Dict.get dashboard_password_key (browser.local)) else "")
get-set_stored_password_example = get-set_stored_password "" browser

abbrev yes_probe : AuthProbe
yes_probe = record { required = true; valid = some true }

abbrev no_probe : AuthProbe
no_probe = record { required = true; valid = some false }

abbrev opened : Page
opened = record {
  store = record { required = false; authenticated = false; password = ""; ready = false };
  browser = browser;
  current = none;
}

abbrev on_login_page : Page
on_login_page = record opened {
  store = record { required = true; authenticated = false; password = ""; ready = true };
  current = some (login_location (some "/stats"));
}

abbrev plain_address : String → String × Option String
plain_address address = (address, none)

abbrev events : List Event
events =
    visit (some no_probe) none "/stats"
    ∷ submitted "secret" (some yes_probe)
    ∷ refused none
    ∷ left none
    ∷ []

run-IsGuarded_example : IsGuarded (run plain_address events opened)
unfolding IsGuarded
run-IsGuarded_example = run-IsGuarded plain_address events opened refl

refused-IsOut_example :
    ((run plain_address
        (refused none ∷ visit (some yes_probe) none "/stats" ∷ [])
        on_login_page).store.authenticated
      ≡ false)
    × (is_open (
          (run plain_address
            (refused none ∷ visit (some yes_probe) none "/stats" ∷ [])
            on_login_page).current)
        ≡ true)
unfolding IsGuarded is_public
refused-IsOut_example =
    refused-IsOut plain_address (visit (some yes_probe) none "/stats" ∷ []) none on_login_page refl
      refl (tt, tt)

-- "gpt-4-7", in two codes of a letter and a digit.
display_model_name-display_name_example :
    display_model_name (103 ∷ 112 ∷ 116 ∷ 45 ∷ 52 ∷ 45 ∷ 55 ∷ [])
    ≡ DisplayName.display_name (103 ∷ 112 ∷ 116 ∷ 45 ∷ 52 ∷ 45 ∷ 55 ∷ [])
display_model_name-display_name_example =
    display_model_name-display_name (103 ∷ 112 ∷ 116 ∷ 45 ∷ 52 ∷ 45 ∷ 55 ∷ [])

abbrev file : Locale → Value
file zh_cn = table (row (97 ∷ []) (I18n.text (120 ∷ [])) no_rows)
file en = table no_rows

abbrev english : State
english = record { bundled = file; locale = en; override_ = none; stored = none }
