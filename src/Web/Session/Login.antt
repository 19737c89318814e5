-- ===== src/Web/Session/Login.antt =====
-- A login takes the session where it wanted to go, exactly if the server lets it in.
use windsurf_to_api_go.Prelude.{
  String, Bool, true, false, not, ◌||◌, Option, none, some, same, if◌then◌else◌, Bool-cases, inl,
  inr, ◌≡◌, refl,
}
use windsurf_to_api_go.Prelude.Dict
use windsurf_to_api_go.Web.Request.{dashboard_password_key}
use windsurf_to_api_go.Web.Session.{
  AuthProbe, Answer, Location, Page, probe, probe_once, is_valid, is_public, navigate,
}
use windsurf_to_api_go.Web.Session.Guarded.{navigate_lem}
use windsurf_to_api_go.Web.Session.Steps.{
  login, leave_login, resolve, query_redirect, redirect_target, on_submit,
}

-- Whether the server lets a session in.
abbrev pub lets_in : AuthProbe → Bool
lets_in a = not (a.required) || is_valid (a.valid)

or_true : (b : Bool) → (b || true) ≡ true
or_true true = refl
or_true false = refl

-- A session that is let in gets to any page.
navigate-admitted :
    (answer second : Answer) (to : Location) (p : Page)
    → p.store.ready ≡ true
    → p.store.authenticated ≡ true
    → (navigate answer second to p).current ≡ some to
unfolding probe_once
navigate-admitted answer second to p ready admitted =
    rw (navigate_lem answer second to p, ready, admitted, or_true (is_public (to.name))) refl

module _ (parse_address : String → String × Option String) where
  -- After a password is submitted, the page is the one that the login page's `redirect` asks for if the
  -- probe is answered and lets the session in (no password is required, or the sent one is valid); else
  -- the page is the one that it was: for an empty password, a rejected probe and a refusal.
  pub on_submit_lem :
      (pw : String) (answer : Answer) (p : Page)
      → (on_submit parse_address pw answer p).current ≡ (
          if same pw "" then p.current else elim answer [
            | none ↦ p.current
            | some a ↦
                if lets_in a
                then some (resolve parse_address (redirect_target (query_redirect (p.current))))
                else p.current
          ])
  unfolding on_submit leave_login login probe
  on_submit_lem pw none p = elim (Bool-cases (same pw "")) [ inl e ↦ rw e refl | inr e ↦ rw e refl ]
  on_submit_lem pw (some a) p = elim (Bool-cases (same pw "")) [
    | inl e ↦ rw e refl
    | inr e ↦ elim (Bool-cases (lets_in a)) [
      | inl f ↦
          rw (e, f)
            (navigate-admitted none none
              (resolve parse_address (redirect_target (query_redirect (p.current))))
              (record p {
                store = record {
                  required = a.required;
                  authenticated = true;
                  password = pw;
                  ready = true;
                };
                browser = record (p.browser) {
                  session = Dict.put dashboard_password_key pw (p.browser.session);
                };
              })
              refl refl)
      | inr f ↦ rw (e, f) refl
    ]
  ]
