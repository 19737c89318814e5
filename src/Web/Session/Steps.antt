-- ===== src/Web/Session/Steps.antt =====
-- The login view, views/Login.vue, and the events of a session. `parse_address` is the router's own
-- reading of an address into its path and the `redirect` of its query.
use text.Mathlib.Text
use Prim.Native.String.{◌++◌ as ◌<>◌, len, slice}
use windsurf_to_api_go.Prelude.{String, not, Option, none, some, List, [], ◌∷◌, same, if◌then◌else◌}
use windsurf_to_api_go.Web.Request.{set_stored_password}
use windsurf_to_api_go.Web.Session.{
  Answer, Location, Page, probe, probe_once, routes, resolve_in, has_record, navigate,
  on_unauthorized, on_logout, is_on_login,
}

-- `login`: the store with the password, after the probe.
unfoldable pub login : String → Answer → Page → Page
unfolding set_stored_password probe
login pw answer p = record p {
  store = probe answer (record (p.store) { password = pw });
  browser = set_stored_password pw (p.browser);
}

abbrev pub query_redirect : Option Location → Option String
query_redirect none = none
query_redirect (some here) = here.redirect

unfoldable pub redirect_target : Option String → String
redirect_target none = "/overview"
redirect_target (some target) = if Text.starts_with target "/" then target else "/overview"

-- What happens to a page. The handlers of the login view run only while it shows, the layout's only
-- while it does not.
pub data Event : Type 0 where
  visit : Answer → Answer → String → Event
  refused : Answer → Event
  mounted : Answer → Event
  submitted : String → Answer → Event
  left : Answer → Event

module _ (parse_address : String → String × Option String) where
  -- A redirect changes the path, and keeps what follows it: the query and the hash.
  unfoldable pub resolve : String → Location
  unfolding resolve_in has_record
  resolve address =
      let parsed = parse_address address in
      record {
        name = resolve_in routes (parsed.0);
        full_path =
            if has_record routes (parsed.0)
            then address
            else "/overview" <> slice address (len (parsed.0)) (len address);
        redirect = parsed.1;
      }

  -- `redirect`.
  unfoldable pub leave_login : Answer → Answer → Page → Page
  unfolding navigate resolve redirect_target
  leave_login answer second p =
      navigate answer second (resolve (redirect_target (query_redirect (p.current)))) p

  -- `onMounted`. A rejected probe ends it.
  unfoldable pub on_mounted : Answer → Page → Page
  unfolding probe_once leave_login
  on_mounted answer p =
      let probed = record p { store = probe_once answer (p.store) } in
      if not (probed.store.ready)
      then probed
      else if not (probed.store.required)
      then leave_login none none probed
      else if probed.store.authenticated
      then leave_login none none probed
      else probed

  -- `onSubmit`. A rejected probe ends it with an error on the page.
  unfoldable pub on_submit : String → Answer → Page → Page
  unfolding login leave_login
  on_submit pw answer p = if same pw "" then p else elim answer [
    | none ↦ login pw none p
    | some a ↦
        if not ((login pw (some a) p).store.authenticated)
        then login pw (some a) p
        else leave_login none none (login pw (some a) p)
  ]

  unfoldable pub step : Event → Page → Page
  unfolding navigate resolve on_unauthorized on_mounted on_submit on_logout is_on_login
  step (visit answer second address) p = navigate answer second (resolve address) p
  step (refused answer) p = on_unauthorized answer p
  step (mounted answer) p = if is_on_login p then on_mounted answer p else p
  step (submitted pw answer) p = if is_on_login p then on_submit pw answer p else p
  step (left answer) p = if is_on_login p then p else on_logout answer p

  unfoldable pub run : List Event → Page → Page
  unfolding step
  run [] p = p
  run (e ∷ es) p = run es (step e p)
