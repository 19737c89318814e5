-- ===== src/Web/Session/LockedOut.antt =====
-- A session whose password was refused stays out until it logs in again.
use windsurf_to_api_go.Prelude.{
  String, Bool, true, false, ◌||◌, Option, some, List, [], ◌∷◌, if◌then◌else◌, All, ◌≡◌, refl,
}
use windsurf_to_api_go.Web.Session.{
  AuthStore, Answer, Location, Page, probe_once, is_public, to_login_page, navigate,
  on_unauthorized, is_on_login, path_here,
}
use windsurf_to_api_go.Web.Session.Guarded.{is_open, IsGuarded, run-IsGuarded, navigate_lem}
use windsurf_to_api_go.Web.Session.Steps.{
  resolve, Event, visit, refused, mounted, submitted, left, step, run,
}

-- The store has its answer, and it is no.
unfoldable pub IsOut : Page → Type 0
IsOut p = (p.store.ready ≡ true) × (p.store.authenticated ≡ false)

-- A visit or a call refused with status 401.
abbrev pub IsPassive : Event → Type 0
IsPassive (visit answer second address) = Unit
IsPassive (refused answer) = Unit
IsPassive e = ⊥

to_login_page-IsOut :
    (answer : Answer) (redirect : Option String) (p : Page)
    → IsOut p
    → IsOut (to_login_page answer redirect p)
unfolding IsOut to_login_page probe_once
to_login_page-IsOut answer redirect p h = rw (h.0) (refl, h.1)

probe_once-ready : (answer : Answer) (s : AuthStore) → s.ready ≡ true → probe_once answer s ≡ s
unfolding probe_once
probe_once-ready answer s h = rw h refl

if-IsOut : (b : Bool) (x y : Page) → IsOut x → IsOut y → IsOut (if b then x else y)
if-IsOut true x y hx hy = hx
if-IsOut false x y hx hy = hy

shown-IsOut : (p : Page) (here : Option Location) → IsOut p → IsOut (record p { current = here })
unfolding IsOut
shown-IsOut p here h = h

navigate-IsOut :
    (answer second : Answer) (to : Location) (p : Page)
    → IsOut p
    → IsOut (navigate answer second to p)
unfolding IsOut
navigate-IsOut answer second to p h =
    rw (navigate_lem answer second to p, probe_once-ready answer (p.store) (h.0))
      (if-IsOut (is_public (to.name) || p.store.authenticated) (record p { current = some to })
        (to_login_page second (some (to.full_path)) p) (shown-IsOut p (some to) h)
        (to_login_page-IsOut second (some (to.full_path)) p h))

locked-IsOut :
    (p : Page)
    → p.store.ready ≡ true
    → IsOut (record p { store = record (p.store) { authenticated = false } })
unfolding IsOut
locked-IsOut p h = (h, refl)

ready_of : (p : Page) → IsOut p → p.store.ready ≡ true
unfolding IsOut
ready_of p h = h.0

on_unauthorized-IsOut :
    (answer : Answer) (p : Page) → p.store.ready ≡ true → IsOut (on_unauthorized answer p)
unfolding on_unauthorized
on_unauthorized-IsOut answer p h =
    let locked = record p { store = record (p.store) { authenticated = false } } in
    if-IsOut (is_on_login p) locked (to_login_page answer (some (path_here (p.current))) locked)
      (locked-IsOut p h)
      (to_login_page-IsOut answer (some (path_here (p.current))) locked (locked-IsOut p h))

only_open : (a b : Bool) → (a || b) ≡ true → b ≡ false → a ≡ true
only_open true b h e = refl
only_open false b h e = cc

module _ (parse_address : String → String × Option String) where
  run-IsOut :
      (es : List Event) (p : Page) → All IsPassive es → IsOut p → IsOut (run parse_address es p)
  unfolding run step
  run-IsOut [] p passive h = h
  run-IsOut (visit answer second address ∷ es) p passive h =
      run-IsOut es (navigate answer second (resolve parse_address address) p) (passive.1)
        (navigate-IsOut answer second (resolve parse_address address) p h)
  run-IsOut (refused answer ∷ es) p passive h =
      run-IsOut es (on_unauthorized answer p) (passive.1)
        (on_unauthorized-IsOut answer p (ready_of p h))
  run-IsOut (mounted answer ∷ es) p passive h = absurd (passive.0)
  run-IsOut (submitted pw answer ∷ es) p passive h = absurd (passive.0)
  run-IsOut (left answer ∷ es) p passive h = absurd (passive.0)

  -- After a call that was refused with status 401, once the store has had its answer, every sequence of
  -- visits and of further refused calls leaves the session unauthenticated, and on a public page.
  pub refused-IsOut :
      (es : List Event) (answer : Answer) (p : Page)
      → p.store.ready ≡ true
      → IsGuarded p
      → All IsPassive es
      → ((run parse_address (refused answer ∷ es) p).store.authenticated ≡ false)
        × (is_open ((run parse_address (refused answer ∷ es) p).current) ≡ true)
  unfolding run step IsOut IsGuarded
  refused-IsOut es answer p ready g passive =
      let out =
        run-IsOut es (on_unauthorized answer p) passive (on_unauthorized-IsOut answer p ready) in
      let shown = run-IsGuarded parse_address (refused answer ∷ es) p g in
      (out.1, only_open _ _ shown (out.1))
