-- ===== src/Web/Request/Storage.antt =====
-- The stored password: where it is kept, and how it gets into a request.
use windsurf_to_api_go.Prelude.{
  String, true, false, Option, none, some, same, same_iff, if◌then◌else◌, Bool-cases, inl, inr, ◌≡◌,
  refl, sym, ap, ◌∙◌,
}
use windsurf_to_api_go.Prelude.Dict
use windsurf_to_api_go.Web.Request.{
  Browser, dashboard_password_key, truthy, or_empty, get_stored_password, set_stored_password,
}

in_session : Browser → Option String
in_session b = Dict.get dashboard_password_key (b.session)

in_local : Browser → Option String
in_local b = Dict.get dashboard_password_key (b.local)

-- The browser after a password has moved to the session's storage.
moved : Browser → Browser
unfolding in_local
moved b = record b {
  session = Dict.put dashboard_password_key (or_empty (in_local b)) (b.session);
  local = if b.local_is_locked then b.local else Dict.delete dashboard_password_key (b.local);
}

module _ (b : Browser) where
  read_cached : truthy (in_session b) ≡ true → get_stored_password b ≡ (or_empty (in_session b), b)
  unfolding in_session get_stored_password
  read_cached e = rw e refl

  read_legacy :
      truthy (in_session b) ≡ false
      → truthy (in_local b) ≡ true
      → get_stored_password b ≡ (or_empty (in_local b), moved b)
  unfolding in_session in_local moved get_stored_password
  read_legacy e f = rw (e, f) refl

  read_none :
      truthy (in_session b) ≡ false → truthy (in_local b) ≡ false → get_stored_password b ≡ ("", b)
  unfolding in_session in_local get_stored_password
  read_none e f = rw (e, f) refl

  in_session-moved : in_session (moved b) ≡ some (or_empty (in_local b))
  unfolding in_session moved
  in_session-moved = Dict.get-put_self dashboard_password_key (or_empty (in_local b)) (b.session)

truthy-or_empty : (o : Option String) → truthy o ≡ true → truthy (some (or_empty o)) ≡ true
truthy-or_empty none h = cc
truthy-or_empty (some s) h = h

-- A read that follows a read gives the same password and changes nothing: the first one has moved a
-- password of the persistent storage to the session's.
pub get_stored_password-again :
    (b : Browser)
    → get_stored_password ((get_stored_password b).1)
      ≡ ((get_stored_password b).0, (get_stored_password b).1)
get_stored_password-again b = elim (Bool-cases (truthy (in_session b))) [
  | inl e ↦ rw (read_cached b e) (read_cached b e)
  | inr e ↦ elim (Bool-cases (truthy (in_local b))) [
    | inl f ↦
        let there : truthy (in_session (moved b)) ≡ true =
          rw (in_session-moved b) (truthy-or_empty (in_local b) f) in
        rw (read_legacy b e f) (
          read_cached (moved b) there
          ∙ ap (λ (o : Option String). (or_empty o, moved b)) (in_session-moved b))
    | inr f ↦ rw (read_none b e f) (read_none b e f)
  ]
]

legacy_or_empty :
    (o : Option String) (x y : Browser)
    → (if◌then◌else◌ {A = String × Browser} (truthy o) (or_empty o, x) ("", y)).0 ≡ or_empty o
legacy_or_empty none x y = refl
legacy_or_empty (some s) x y = elim (Bool-cases (same s "")) [
  | inl e ↦ rw e (sym ((same_iff s "").0 e))
  | inr e ↦ rw e refl
]

-- After a password is set, it is the one that is read; after the empty one is set, what is read is
-- what the persistent storage still holds.
pub get-set_stored_password :
    (pw : String) (b : Browser)
    → (get_stored_password (set_stored_password pw b)).0
      ≡ (if same pw "" then or_empty (Dict.get dashboard_password_key (b.local)) else pw)
unfolding get_stored_password set_stored_password
get-set_stored_password pw b = elim (Bool-cases (same pw "")) [
  | inl e ↦
      rw (e, Dict.get-delete_self dashboard_password_key (b.session))
        (legacy_or_empty (Dict.get dashboard_password_key (b.local)) _ _)
  | inr e ↦ rw (e, Dict.get-put_self dashboard_password_key pw (b.session), e) refl
]
