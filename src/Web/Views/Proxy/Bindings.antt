-- ===== src/Web/Views/Proxy/Bindings.antt =====
-- web/src/views/Proxy.vue: which accounts the form for a new proxy offers.
use windsurf_to_api_go.Prelude.{
  ◌≡◌, refl, ap, same_iff, String, Bool, true, not, ◌&&◌, List, [], ◌∷◌, map, any, keep_if, same,
  arith, Bool-cases, inl, inr,
}
use windsurf_to_api_go.Prelude.Dict.{Dict}
use windsurf_to_api_go.Prelude.Dict
use windsurf_to_api_go.Web.Api.Types.Accounts.{AccountRow}
use windsurf_to_api_go.Web.Api.Types.Proxy.{ProxySpec}
use windsurf_to_api_go.Web.Views.Page.{or_none, is_some}
use windsurf_to_api_go.Web.Views.Proxy.{ProxyPage}
use windsurf_to_api_go.Web.Views.Proxy.Rows.{
  SelectChoice, option_of, account_select_options, unbound_accounts, is_bound,
}

abbrev pub offers : String → List SelectChoice → Bool
offers id choices = any (λ c. same c.value id) choices

abbrev pub has_account : String → List AccountRow → Bool
has_account id accounts = any (λ a. same a.id id) accounts

same_binding :
    (a : AccountRow) (id : String) (bindings : Dict ProxySpec)
    → same a.id id ≡ true
    → is_bound bindings a ≡ is_some (Dict.get id bindings)
same_binding a id bindings e = ap (λ j. is_some (Dict.get j bindings)) ((same_iff a.id id).0 e)

offers_loop :
    (id : String) (bindings : Dict ProxySpec) (accounts : List AccountRow)
    → offers id (map option_of (keep_if (λ a. not (is_bound bindings a)) accounts))
      ≡ (has_account id accounts && not (is_some (Dict.get id bindings)))
offers_loop id bindings [] = refl
offers_loop id bindings (a ∷ accounts) = elim (Bool-cases (is_bound bindings a)) [
  | inl e ↦ rw e (ground (arith, e, offers_loop id bindings accounts, same_binding a id bindings))
  | inr e ↦ rw e (ground (arith, e, offers_loop id bindings accounts, same_binding a id bindings))
]

-- The form offers exactly the accounts that the page knows, without those that have a binding in the
-- configuration that it has loaded.
pub account_select_options-offers :
    (id : String) (s : ProxyPage)
    → offers id (account_select_options s)
      ≡ (has_account id s.accounts && not (is_some (Dict.get id (or_none s.cfg.accounts))))
unfolding account_select_options unbound_accounts
account_select_options-offers id s = offers_loop id (or_none s.cfg.accounts) s.accounts
