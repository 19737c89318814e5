-- ===== src/Auth/Admin.antt =====
-- Loading, adding, removing and editing accounts, internal/auth/pool.go. Random ids come from
-- outside as arguments; `writable` says whether the disk takes a save. Log lines are left out.
use Prim.Native.String.{len, slice, ◌++◌ as concat}
use windsurf_to_api_go.Prelude.{
  ℕ, suc, String, Bool, true, false, not, ◌&&◌, Option, none, some, List, [], ◌∷◌, ◌++◌, any, find,
  keep_if, update_first, same, contains, leb, ltb, if◌then◌else◌,
}
use windsurf_to_api_go.Prelude.Dict
use windsurf_to_api_go.Prelude.Dict.{Dict}
use windsurf_to_api_go.Auth.Account.{
  Account, Pool, status_active, status_error, status_disabled, save_locked,
}
use windsurf_to_api_go.Auth.Signals.{has_key}

abbrev pub has_id : String → Account → Bool
has_id id a = same a.id id

-- The file as `Load` meets it. Reading its text as JSON is the library's work.
pub data Disk : Type 0 where
  absent : Disk
  unreadable : Disk
  malformed : Disk
  rows : List Account → Disk

pub data LoadResult : Type 0 where
  loaded : Pool → LoadResult
  failed : LoadResult

abbrev pub or_default : String → String → String
or_default d s = if same s "" then d else s

abbrev pub delete_start : String → Option (Dict ℕ) → Option (Dict ℕ)
delete_start k none = none
delete_start k (some started) = some (Dict.delete k started)

unfoldable pub prune_started : ℕ → Dict ℕ → Option (Dict ℕ) → Option (Dict ℕ)
prune_started now [] started = started
prune_started now ((k, until) ∷ limits) started =
    prune_started now limits (if leb until now then delete_start k started else started)

-- The defaults and the expired windows of one row.
unfoldable pub revive : ℕ → String → Account → Account
unfolding prune_started
revive now fresh a = record a {
  id = or_default fresh a.id;
  status = or_default status_active a.status;
  tier = or_default "unknown" a.tier;
  method = or_default "api_key" a.method;
  rate_limited_until =
      if ltb 0 a.rate_limited_until && leb a.rate_limited_until now
      then 0
      else a.rate_limited_until;
  rate_limited_started =
      if ltb 0 a.rate_limited_until && leb a.rate_limited_until now
      then 0
      else a.rate_limited_started;
  model_rate_limits = keep_if (λ row. not (leb row.1 now)) a.model_rate_limits;
  model_rate_started = prune_started now a.model_rate_limits a.model_rate_started;
}

-- The loop of `Load`; `fresh n` is the n-th random id.
unfoldable pub load_rows : ℕ → (ℕ → String) → ℕ → List Account → List Account → List Account
unfolding revive
load_rows now fresh n accounts [] = accounts
load_rows now fresh n accounts (row ∷ rest) =
    let a = revive now (fresh n) row in
    load_rows now fresh (suc n)
      (if any (has_key a.api_key) accounts then accounts else accounts ++ a ∷ []) rest

unfoldable pub load : ℕ → (ℕ → String) → Disk → Pool → LoadResult
unfolding load_rows
load now fresh absent p = loaded p
load now fresh unreadable p = failed
load now fresh malformed p = failed
load now fresh (rows raw) p = loaded (record p { accounts = load_rows now fresh 0 p.accounts raw })

-- `apiKey[:8]` counts bytes, as `len` and `slice` do.
unfoldable pub label_or_key : String → String → String
label_or_key label api_key =
    if not (same label "")
    then label
    else if leb 8 (len api_key)
    then concat "key-" (slice api_key 0 8)
    else concat "key-" api_key

unfoldable pub new_account : ℕ → String → String → String → Account
unfolding label_or_key
new_account now id api_key label = record {
  id = id;
  email = label_or_key label api_key;
  api_key = api_key;
  api_server_url = "";
  method = "api_key";
  status = status_active;
  added_at = now;
  tier = "unknown";
  tier_manual = false;
  capabilities = [];
  last_probed = 0;
  credits = none;
  blocked_models = [];
  refresh_token = "";
  id_token = "";
  rate_limited_until = 0;
  rate_limited_started = 0;
  model_rate_limits = [];
  model_rate_started = none;
  last_used = 0;
  error_count = 0;
  internal_error_streak = 0;
  rpm_history = [];
}

unfoldable pub add_by_key : Bool → ℕ → String → String → String → Pool → Pool × Account
unfolding new_account
add_by_key writable now fresh_id api_key label p = elim (find (has_key api_key) p.accounts) [
  | some a ↦ (p, a)
  | none ↦
      let a = new_account now fresh_id api_key label in
      (save_locked writable (record p { accounts = p.accounts ++ a ∷ [] }), a)
]

-- `append(p.accounts[:i], p.accounts[i+1:]...)` at the first account with the id.
unfoldable pub drop_first : (Account → Bool) → List Account → List Account
drop_first test [] = []
drop_first test (a ∷ rest) = if test a then rest else a ∷ drop_first test rest

unfoldable pub remove : Bool → String → Pool → Pool × Bool
unfolding drop_first
remove writable id p =
    if any (has_id id) p.accounts
    then (save_locked writable (record p { accounts = drop_first (has_id id) p.accounts }), true)
    else (p, false)

-- `Get` and `All` hand out deep copies, which are the values themselves here.
unfoldable pub get : String → Pool → Option Account
get id p = find (has_id id) p.accounts

unfoldable pub all : Pool → List Account
all p = p.accounts

-- The frame that the setters share: edit the first account with the id and save, or report false.
unfoldable pub edit : Bool → String → (Account → Account) → Pool → Pool × Bool
edit writable id change p =
    if any (has_id id) p.accounts
    then (
      save_locked writable (record p { accounts = update_first (has_id id) change p.accounts }),
      true,
    )
    else (p, false)

unfoldable pub valid_status : String → Bool
valid_status s =
    contains s (status_active ∷ status_error ∷ status_disabled ∷ "expired" ∷ "invalid" ∷ [])

unfoldable pub with_status : String → Account → Account
with_status status a =
    if same status status_active
    then record a { status = status; error_count = 0 }
    else record a { status = status }

unfoldable pub set_status : Bool → String → String → Pool → Pool × Bool
unfolding valid_status with_status edit
set_status writable id status p =
    if not (valid_status status) then (p, false) else edit writable id (with_status status) p

unfoldable pub valid_tier : String → Bool
valid_tier tier = contains tier ("pro" ∷ "free" ∷ "unknown" ∷ "expired" ∷ [])

unfoldable pub set_tier : Bool → String → String → Pool → Pool × Bool
unfolding valid_tier edit
set_tier writable id tier p =
    if not (valid_tier tier)
    then (p, false)
    else edit writable id (λ a. record a { tier = tier; tier_manual = true }) p

unfoldable pub set_blocked_models : Bool → String → List String → Pool → Pool × Bool
unfolding edit
set_blocked_models writable id list p = edit writable id (λ a. record a { blocked_models = list }) p

-- `SetTokens` of internal/auth/ops.go: an empty text leaves its field alone.
abbrev pub keep_or : String → String → String
keep_or old given = if not (same given "") then given else old

unfoldable pub set_tokens : Bool → String → String → String → String → Pool → Pool × Bool
unfolding edit
set_tokens writable id api_key refresh id_tok p =
    edit writable id
      (λ a. record a {
        api_key = keep_or a.api_key api_key;
        refresh_token = keep_or a.refresh_token refresh;
        id_token = keep_or a.id_token id_tok;
      })
      p
