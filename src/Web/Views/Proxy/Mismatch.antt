-- ===== src/Web/Views/Proxy/Mismatch.antt =====
-- What of the server's proxies reaches web/src/views/Proxy.vue, and what of its forms reaches the server.
use windsurf_to_api_go.Prelude.{
  ◌≡◌, refl, ap, ◌∙◌, ℕ, String, false, not, Option, none, some, List, [], ◌∷◌, keep_if, same,
  same_refl, ◌==◌, arith,
}
use windsurf_to_api_go.Prelude.Dict
use windsurf_to_api_go.Prelude.Dict.{Dict}
use windsurf_to_api_go.ProxyCfg.{Proxy, File, ProxyState, accepted, set_account, effective}
use windsurf_to_api_go.ProxyCfg
use windsurf_to_api_go.ProxyCfg.Effective.{effective-set_account}
use windsurf_to_api_go.Web.Views.Proxy.Body.{decode_proxy-spec_json}
use windsurf_to_api_go.Web.Request.{or_empty}
use windsurf_to_api_go.Web.Api.Call.{resolved}
use windsurf_to_api_go.Web.Api.Json.{text_at, object_at, property}
use windsurf_to_api_go.Web.Api.Types.Accounts.{AccountRow, AccountsResponse}
use windsurf_to_api_go.Web.Api.Types.Proxy.{ProxySpec}
use windsurf_to_api_go.Web.Views.Page.{or_none}
use windsurf_to_api_go.Web.Views.Proxy.{ProxyPage, load, global_of}
use windsurf_to_api_go.Web.Views.Proxy.Rows.{unbound_accounts, account_rows, is_bound}
use windsurf_to_api_go.Web.Views.Proxy.Server.{
  get_route, snapshot_json, proxy_json, read_config, read_spec, spec_json, decode_proxy,
  put_account_route, or_http, or_8080, or_default,
}

-- The page after it has loaded what the server has.
unfoldable pub loaded_page : ProxyState → AccountsResponse → ProxyPage → ProxyPage
unfolding load get_route read_config
loaded_page server accounts page =
    (load (resolved (read_config (get_route server).0)) (resolved accounts) page).0

keep_all : (accounts : List AccountRow) → keep_if (λ a. not (is_bound [] a)) accounts ≡ accounts
unfolding Dict.get
keep_all [] = refl
keep_all (a ∷ accounts) = ap (λ xs. a ∷ xs) (keep_all accounts)

host_lost :
    (g : Option Proxy) (accounts : Dict Proxy)
    → or_empty
        (global_of
          (read_config (snapshot_json (record { global = g; per_account = accounts })))).host
      ≡ ""
unfolding snapshot_json proxy_json read_config read_spec object_at text_at property
host_lost none accounts = refl
host_lost (some p) accounts = refl

-- Whatever proxies the server has, the page shows none of them after a load: no account is in its table,
-- each one is offered for a new proxy, and the form of the global one has no host.
pub loaded_page_shows_none :
    (server : ProxyState) (accounts : AccountsResponse) (page : ProxyPage)
    → (account_rows (loaded_page server accounts page) ≡ [])
      × ((unbound_accounts (loaded_page server accounts page) ≡ or_none accounts.accounts)
          × ((loaded_page server accounts page).form.host ≡ some ""))
unfolding loaded_page load get_route snapshot_json proxy_json read_config read_spec object_at
    text_at property account_rows unbound_accounts ProxyCfg.get
loaded_page_shows_none server accounts page = (
  refl,
  (
    keep_all (or_none accounts.accounts),
    ap some (host_lost server.state.global server.state.per_account),
  ),
)

some_port : (n : ℕ) → (or_8080 n == 0) ≡ false
some_port n = ground arith

accepted_kept :
    (p : Proxy) → same p.host "" ≡ false → (p.port == 0) ≡ false → accepted (some p) ≡ some p
unfolding accepted
accepted_kept p filled given = rw (accepted, filled, given) refl

-- Whatever proxy with a host the page sends for an account, the account goes through it without its user
-- and its password.
pub put_account_route_no_login :
    (id : String) (spec : ProxySpec) (server : ProxyState)
    → same id "" ≡ false
    → same (or_empty spec.host) "" ≡ false
    → effective id (put_account_route id (spec_json spec) server)
      ≡ some (record {
        type_ = or_http (or_empty spec.type_);
        host = or_empty spec.host;
        port = or_8080 (or_default 0 spec.port);
        username = "";
        password = "";
      })
unfolding put_account_route
put_account_route_no_login id spec server named filled =
    effective-set_account id id (decode_proxy (spec_json spec)) server named
    ∙ rw
        (
          same_refl id,
          decode_proxy-spec_json spec filled,
          accepted_kept
              (record {
                type_ = or_http (or_empty spec.type_);
                host = or_empty spec.host;
                port = or_8080 (or_default 0 spec.port);
                username = "";
                password = "";
              })
              filled (some_port (or_default 0 spec.port)),
        )
        refl
