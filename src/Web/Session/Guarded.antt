-- ===== src/Web/Session/Guarded.antt =====
-- A page of the dashboard shows only to a session that is let in.
use windsurf_to_api_go.Prelude.{
  String, Bool, true, false, not, ◌||◌, Option, none, some, List, [], ◌∷◌, same, if◌then◌else◌,
  Bool-cases, inl, inr, arith, ◌≡◌, refl, ap, ◌∙◌,
}
use windsurf_to_api_go.Web.Session.{
  AuthStore, Answer, Location, Page, Verdict, pass, to_login, before_each, probe_once, is_public,
  to_login_page, navigate, path_here, logout, on_unauthorized, on_logout, is_on_login,
}
use windsurf_to_api_go.Web.Session.Steps.{
  login, leave_login, on_mounted, on_submit, Event, visit, refused, mounted, submitted, left, step,
  run,
}

abbrev pub is_open : Option Location → Bool
is_open none = true
is_open (some here) = is_public (here.name)

-- Nothing shows yet, or the page is public, or the store says that the session is authenticated.
unfoldable pub IsGuarded : Page → Type 0
IsGuarded p = (is_open (p.current) || p.store.authenticated) ≡ true

to_login_page-IsGuarded :
    (answer : Answer) (redirect : Option String) (p : Page)
    → IsGuarded (to_login_page answer redirect p)
unfolding IsGuarded to_login_page is_public
to_login_page-IsGuarded answer redirect p = refl

-- The guard's verdict: to a public page always, to another one if the session is authenticated after the
-- probe; else to the login page, which keeps the address.
pub before_each_lem :
    (answer : Answer) (to : Location) (s : AuthStore)
    → (before_each answer to s).0 ≡ (
        if is_public (to.name) || (probe_once answer s).authenticated
        then pass
        else to_login (to.full_path))
unfolding before_each
before_each_lem answer to s = ground arith

before_each-split :
    (answer : Answer) (to : Location) (s : AuthStore)
    → before_each answer to s ≡ (
      if is_public (to.name) || (probe_once answer s).authenticated
          then pass
          else to_login (to.full_path),
      probe_once answer s,
    )
unfolding before_each
before_each-split answer to s = ground arith

-- Where a navigation ends.
pub navigate_lem :
    (answer second : Answer) (to : Location) (p : Page)
    → navigate answer second to p ≡ (
        if is_public (to.name) || (probe_once answer (p.store)).authenticated
        then record p { store = probe_once answer (p.store); current = some to }
        else to_login_page second
            (some (to.full_path))
            (record p { store = probe_once answer (p.store) }))
unfolding navigate before_each
navigate_lem answer second to p =
    ap
      (λ (guarded : Verdict × AuthStore). elim (guarded.0) [
        | pass ↦ record p { store = guarded.1; current = some to }
        | to_login path ↦ to_login_page second (some path) (record p { store = guarded.1 })
      ])
      (before_each-split answer to (p.store))
    ∙ elim (Bool-cases (is_public (to.name) || (probe_once answer (p.store)).authenticated)) [
      | inl e ↦ rw e refl
      | inr e ↦ rw e refl
    ]

if-IsGuarded : (b : Bool) (x y : Page) → IsGuarded x → IsGuarded y → IsGuarded (if b then x else y)
if-IsGuarded true x y hx hy = hx
if-IsGuarded false x y hx hy = hy

-- On the login page the store may say anything.
shown-IsGuarded :
    (s : AuthStore) (to : Location) (p : Page)
    → (is_public (to.name) || s.authenticated) ≡ true
    → IsGuarded (record p { store = s; current = some to })
unfolding IsGuarded
shown-IsGuarded s to p h = h

navigate-IsGuarded :
    (answer second : Answer) (to : Location) (p : Page) → IsGuarded (navigate answer second to p)
navigate-IsGuarded answer second to p =
    rw (navigate_lem answer second to p)
      (elim (Bool-cases (is_public (to.name) || (probe_once answer (p.store)).authenticated)) [
        | inl e ↦ rw e (shown-IsGuarded (probe_once answer (p.store)) to p e)
        | inr e ↦ rw e (
            to_login_page-IsGuarded second (some (to.full_path))
              (record p { store = probe_once answer (p.store) }))
      ])

is_open_login :
    (here : Option Location)
    → elim here [ none ↦ false | some l ↦ is_public (l.name) ] ≡ true
    → is_open here ≡ true
is_open_login none h = refl
is_open_login (some here) h = h

on_login-IsGuarded : (p q : Page) → is_on_login p ≡ true → q.current ≡ p.current → IsGuarded q
unfolding IsGuarded is_on_login
on_login-IsGuarded p q h e = rw (e, is_open_login (p.current) h) refl

module _ (parse_address : String → String × Option String) where
  leave_login-IsGuarded :
      (answer second : Answer) (p : Page) → IsGuarded (leave_login parse_address answer second p)
  unfolding leave_login
  leave_login-IsGuarded answer second p = navigate-IsGuarded answer second _ p

  on_mounted-IsGuarded :
      (answer : Answer) (p : Page)
      → is_on_login p ≡ true
      → IsGuarded (on_mounted parse_address answer p)
  unfolding on_mounted
  on_mounted-IsGuarded answer p h =
      let probed = record p { store = probe_once answer (p.store) } in
      let stay = on_login-IsGuarded p probed h refl in
      let leave = leave_login-IsGuarded none none probed in
      if-IsGuarded _ probed _ stay (if-IsGuarded _ _ _ leave (if-IsGuarded _ _ probed leave stay))

  on_submit-IsGuarded :
      (pw : String) (answer : Answer) (p : Page)
      → is_on_login p ≡ true
      → IsGuarded (on_submit parse_address pw answer p)
  unfolding on_submit login
  on_submit-IsGuarded pw none p h =
      if-IsGuarded (same pw "") p (login pw none p) (on_login-IsGuarded p p h refl)
        (on_login-IsGuarded p (login pw none p) h refl)
  on_submit-IsGuarded pw (some a) p h =
      let asked = login pw (some a) p in
      if-IsGuarded (same pw "") p _ (on_login-IsGuarded p p h refl) (
        if-IsGuarded (not (asked.store.authenticated)) asked _ (on_login-IsGuarded p asked h refl)
          (leave_login-IsGuarded none none asked))

  step-IsGuarded : (e : Event) (p : Page) → IsGuarded p → IsGuarded (step parse_address e p)
  unfolding step on_unauthorized on_logout
  step-IsGuarded (visit answer second address) p g = navigate-IsGuarded answer second _ p
  step-IsGuarded (refused answer) p g = elim (Bool-cases (is_on_login p)) [
    | inl e ↦ on_login-IsGuarded p _ e (rw e refl)
    | inr e ↦ rw e (
        to_login_page-IsGuarded answer (some (path_here (p.current)))
          (record p { store = record (p.store) { authenticated = false } }))
  ]
  step-IsGuarded (mounted answer) p g = elim (Bool-cases (is_on_login p)) [
    | inl e ↦ rw e (on_mounted-IsGuarded answer p e)
    | inr e ↦ rw e g
  ]
  step-IsGuarded (submitted pw answer) p g = elim (Bool-cases (is_on_login p)) [
    | inl e ↦ rw e (on_submit-IsGuarded pw answer p e)
    | inr e ↦ rw e g
  ]
  step-IsGuarded (left answer) p g = elim (Bool-cases (is_on_login p)) [
    | inl e ↦ rw e g
    | inr e ↦
        let gone = logout (p.store, p.browser) in
        rw e (to_login_page-IsGuarded answer none (record p { store = gone.0; browser = gone.1 }))
  ]

  -- From a page on which nothing shows yet, or one shown rightly, whatever happens next (visits,
  -- logins, logouts, refused calls and answers to the probes, in any order), a page that is not public
  -- shows only while the store says that the session is authenticated.
  pub run-IsGuarded :
      (es : List Event) (p : Page) → IsGuarded p → IsGuarded (run parse_address es p)
  unfolding run
  run-IsGuarded [] p g = g
  run-IsGuarded (e ∷ es) p g = run-IsGuarded es (step parse_address e p) (step-IsGuarded e p g)
