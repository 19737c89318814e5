-- ===== src/Tests/Settings.antt =====
-- The pages of the overview, the proxies, the prompts and the accounts on concrete answers.
use windsurf_to_api_go.Prelude.{ℕ, String, true, false, Option, none, some, [], ◌∷◌, ◌≡◌}
use windsurf_to_api_go.Web.Api.Types.Accounts.{AccountRow}
use windsurf_to_api_go.Web.Api.Types.Proxy.{ProxySpec}
use windsurf_to_api_go.Prelude.{refl}
use windsurf_to_api_go.ProxyCfg.{Proxy, ProxyState, effective}
use windsurf_to_api_go.Web.Api.Types.Accounts.{AccountsResponse}
use windsurf_to_api_go.Web.Views.Proxy.Rows.{unbound_accounts, account_rows}
use windsurf_to_api_go.Web.Views.Proxy.Server.{spec_json, put_account_route}
use windsurf_to_api_go.Web.Views.Proxy.Mismatch.{
  loaded_page, loaded_page_shows_none, put_account_route_no_login,
}
use windsurf_to_api_go.Web.Views.Overview.{OverviewPage}
use windsurf_to_api_go.Web.Views.Proxy.{ProxyPage}

abbrev usage : ℕ → OverviewPage
usage n = record {
  loading = false;
  data_ = some (record {
    uptime = 10;
    started_at = 0;
    accounts = record { total = 1; active = 1; error = 0; expired = none; invalid = none };
    authenticated = true;
    lang_server = record { running = true; port = 42100; instances = [] };
    total_requests = n;
    success_count = n;
    error_count = 0;
    success_rate = "100.0";
    cache = record { size = 0; max_size = 500; hits = 0; misses = 0; hit_rate = "0.0" };
    system = record {
      os = "linux";
      cpu = record { percent = record { num = 25; den = 2 }; cores = 4 };
      memory = record {
        total_bytes = 8;
        used_bytes = 4;
        available_bytes = 4;
        percent = record { num = 50; den = 1 };
      };
      swap = record { total_bytes = 0; used_bytes = 0; percent = record { num = 0; den = 1 } };
      network = record {
        rx_bytes_per_sec = 0;
        tx_bytes_per_sec = 0;
        rx_bytes_total = 0;
        tx_bytes_total = 0;
      };
      load = record {
        min1 = record { num = 1; den = 2 };
        min5 = record { num = 1; den = 2 };
        min15 = record { num = 1; den = 2 };
      };
    };
    tokens = record {
      input_tokens = 1;
      output_tokens = 1;
      total_tokens = 2;
      cost_usd = record { num = 1; den = 100 };
    };
    upstream_status = ("429", 2) ∷ ("200", n) ∷ ("0", 1) ∷ [];
    model_access = record { total = 1; allowed = 1; mode = "all" };
    version = "1";
  });
  config = none;
  catalog = [];
}

abbrev no_number : String → Option ℕ
no_number code = none

abbrev spec : ProxySpec
spec = record { type_ = some "http"; host = some "h"; port = some 1; user = none; pass = none }

abbrev account : String → AccountRow
account id = record {
  id = id;
  email = "mail";
  method = "token";
  status = "active";
  added_at = "";
  key_prefix = "sk";
  tier = "pro";
  tier_manual = none;
  capabilities = none;
  last_probed = none;
  credits = none;
  blocked_models = [];
  available_count = 0;
  tier_model_count = 0;
  rpm_used = 0;
  rpm_limit = 60;
  rate_limited = false;
  rate_limited_until = 0;
  rate_limited_started = none;
  rate_limited_models = none;
  rate_limited_model_starts = none;
}

abbrev proxy_page : ProxyPage
proxy_page = record {
  cfg = record { global = none; accounts = some (("a", spec) ∷ []) };
  accounts = account "a" ∷ account "b" ∷ [];
  loading = false;
  testing = false;
  test_result = "";
  form = spec;
  per_account = record { id = ""; spec = spec };
  per_account_testing = false;
  per_account_result = "";
}

abbrev bound : Proxy
bound = record {
  type_ = "http";
  host = "proxy.example";
  port = 8080;
  username = "u";
  password = "p";
}

abbrev server : ProxyState
server = record {
  state = record { global = some bound; per_account = ("a", bound) ∷ [] };
  pending = none;
  file = none;
}

abbrev pool_answer : AccountsResponse
pool_answer = record { accounts = some (account "a" ∷ account "b" ∷ []); tier_models = [] }

loaded_page_shows_none_example :
    (account_rows (loaded_page server pool_answer proxy_page) ≡ [])
    × ((unbound_accounts (loaded_page server pool_answer proxy_page)
          ≡ account "a" ∷ account "b" ∷ [])
        × ((loaded_page server pool_answer proxy_page).form.host ≡ some ""))
loaded_page_shows_none_example = loaded_page_shows_none server pool_answer proxy_page

abbrev sent_spec : ProxySpec
sent_spec = record {
  type_ = some "socks5";
  host = some "proxy.example";
  port = none;
  user = some "u";
  pass = some "p";
}

put_account_route_no_login_example :
    effective "b" (put_account_route "b" (spec_json sent_spec) server)
    ≡ some (record {
      type_ = "socks5";
      host = "proxy.example";
      port = 8080;
      username = "";
      password = "";
    })
put_account_route_no_login_example = put_account_route_no_login "b" sent_spec server refl refl
