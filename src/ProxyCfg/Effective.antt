-- ===== src/ProxyCfg/Effective.antt =====
-- Which proxy an account goes through after an edit, internal/proxycfg/proxycfg.go.
use windsurf_to_api_go.Prelude.{
  ◌≡◌, refl, String, false, Option, none, some, same, if◌then◌else◌, Bool-cases, inl, inr,
}
use windsurf_to_api_go.Prelude.Dict.{Dict, get-put, get-delete}
use windsurf_to_api_go.Prelude.Dict
use windsurf_to_api_go.ProxyCfg.{
  Proxy, ProxyState, save, accepted, with_account, set_account, or_global, effective,
}

get-with_account :
    (id j : String) (p : Option Proxy) (m : Dict Proxy)
    → Dict.get j (with_account id p m) ≡ (if same id j then p else Dict.get j m)
get-with_account id j none m = get-delete id j m
get-with_account id j (some p) m = get-put id j p m

-- After `SetAccount` the account goes through its new proxy, on port 8080 where none is given, or through
-- the global one where the proxy has no host; every other account goes where it went.
pub effective-set_account :
    (id j : String) (p : Option Proxy) (s : ProxyState)
    → same j "" ≡ false
    → effective j (set_account id p s)
      ≡ (if same id j then or_global (accepted p) s.state.global else effective j s)
unfolding effective set_account save
effective-set_account id j p s named = elim (Bool-cases (same id j)) [
  | inl e ↦ rw (effective, named, get-with_account id j (accepted p) s.state.per_account, e) refl
  | inr e ↦ rw (effective, named, get-with_account id j (accepted p) s.state.per_account, e) refl
]
