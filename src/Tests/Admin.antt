-- ===== src/Tests/Admin.antt =====
-- The administration of the pool on concrete accounts.
use windsurf_to_api_go.Prelude.{true, none, some, [], ◌∷◌, All, map, arith, ◌≡◌, inl, inr, refl}
use windsurf_to_api_go.Auth.Account.{Account, Pool, persisted, save_locked, new_pool}
use windsurf_to_api_go.Auth.Admin.{rows, load, loaded}
use windsurf_to_api_go.Auth.Registry.{IsSettled, load-save}
use windsurf_to_api_go.Tests.Data.{busy, idle, pool}

abbrev limited : Account
limited = record idle {
  rate_limited_until = 2000000;
  model_rate_limits = ("gpt-4o-mini", 1030000) ∷ [];
}

abbrev settled : Pool
settled = record pool { accounts = busy ∷ limited ∷ [] }

All-IsSettled : All (IsSettled 1000000) (settled.accounts)
All-IsSettled = (
  record { id = refl; status = refl; tier = refl; method = refl; window = inl refl; models = tt },
  (
    record {
      id = refl;
      status = refl;
      tier = refl;
      method = refl;
      window = inr (omega arith);
      models = (omega arith, tt);
    },
    tt,
  ),
)

load-save_example :
    ((save_locked true settled).saved ≡ some (map persisted (settled.accounts)))
    × (load 1000000 (λ n. "new") (rows (map persisted (settled.accounts))) (new_pool none)
        ≡ loaded (record (new_pool none) { accounts = map persisted (settled.accounts) }))
load-save_example = load-save 1000000 (λ n. "new") settled none (refl, (refl, tt)) All-IsSettled
