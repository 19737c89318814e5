-- ===== src/Auth/Select.antt =====
-- `Acquire`, `AcquireByKey` and `IsAllRateLimited` of internal/auth/pool.go. The clock `now` is an
-- argument; each call runs whole under the pool's lock.
use windsurf_to_api_go.Prelude.{
  ℕ, suc, ◌-◌, ◌*◌, String, Bool, true, false, not, ◌&&◌, ◌||◌, Option, none, some, List, [], ◌∷◌,
  ◌++◌, same, ltb, leb, ◌==◌, contains, if◌then◌else◌,
}
use windsurf_to_api_go.Prelude.Dict
use windsurf_to_api_go.Models.{Catalog}
use windsurf_to_api_go.Auth.Account.{Account, Pool, status_active}
use windsurf_to_api_go.Auth.Limits.{
  rpm_limit, prune_rpm, is_rate_limited, is_rate_limited_rw, is_model_allowed,
}

pub record Selected : Type 0 where
  pub id : String
  pub email : String
  pub api_key : String
  pub api_server_url : String

unfoldable pub selected : Account → Selected
selected a = record {
  id = a.id;
  email = a.email;
  api_key = a.api_key;
  api_server_url = a.api_server_url;
}

-- A candidate: its place in the pool stands for the pointer.
pub record Cand : Type 0 where
  pub place : ℕ
  pub account : Account
  pub used : ℕ
  pub limit : ℕ

-- The last guards of the loop, on the account whose expired window was dropped.
unfoldable pub consider_budget : Catalog → String → ℕ → ℕ → Account → Account × Option Cand
consider_budget catalog model_key now place a =
    let limit = rpm_limit a.tier in
    if leb limit 0
    then (a, none)
    else if not (same model_key "") && not (is_model_allowed catalog a model_key)
    then (a, none)
    else let (a', used) = prune_rpm a now in
      if leb limit used
      then (a', none)
      else (a', some (record { place = place; account = a'; used = used; limit = limit }))

-- One round of `Acquire`'s loop: the account as the round leaves it, and the candidate that it adds.
unfoldable pub consider : Catalog → List String → String → ℕ → ℕ → Account → Account × Option Cand
unfolding consider_budget
consider catalog tried model_key now place a =
    if not (same a.status status_active)
    then (a, none)
    else if contains a.api_key tried
    then (a, none)
    else let (a', limited) = is_rate_limited_rw a model_key now in
      if limited then (a', none) else consider_budget catalog model_key now place a'

-- `less` of the sort: more budget left first, then the least recently used. `limit` is at most 60, so
-- the code's float ratios compare as the fractions do, here multiplied out.
unfoldable pub less : Cand → Cand → Bool
less i j =
    let ri = (i.limit - i.used) * j.limit in
    let rj = (j.limit - j.used) * i.limit in
    if not (ri == rj) then ltb rj ri else ltb i.account.last_used j.account.last_used

-- `sort.Slice`, as the insertion sort that it is on short slices.
unfoldable pub insert_sorted : Cand → List Cand → List Cand
insert_sorted c [] = c ∷ []
insert_sorted c (d ∷ ds) = if less c d then c ∷ d ∷ ds else d ∷ insert_sorted c ds

unfoldable pub sort_slice : List Cand → List Cand → List Cand
unfolding insert_sorted
sort_slice sorted [] = sorted
sort_slice sorted (c ∷ cs) = sort_slice (insert_sorted c sorted) cs

unfoldable pub add_cand : Option Cand → List Cand → List Cand
add_cand none cs = cs
add_cand (some c) cs = c ∷ cs

-- The loop of `Acquire` from place `i` on.
unfoldable pub scan :
    Catalog → List String → String → ℕ → ℕ → List Account → List Account × List Cand
unfolding consider add_cand
scan catalog tried model_key now i [] = ([], [])
scan catalog tried model_key now i (a ∷ rest) =
    let (a', c) = consider catalog tried model_key now i a in
    let (rest', cs) = scan catalog tried model_key now (suc i) rest in (a' ∷ rest', add_cand c cs)

unfoldable pub use_account : ℕ → Account → Account
use_account now a = record a { rpm_history = a.rpm_history ++ now ∷ []; last_used = now }

unfoldable pub set_at {ℓ} : {A : Type ℓ} → ℕ → (A → A) → List A → List A
set_at n f [] = []
set_at ℕ.zero f (x ∷ xs) = f x ∷ xs
set_at (suc n) f (x ∷ xs) = x ∷ set_at n f xs

unfoldable pub pick : ℕ → Pool → List Account → List Cand → Pool × Option Selected
unfolding use_account set_at selected
pick now p accounts [] = (record p { accounts = accounts }, none)
pick now p accounts (c ∷ _) =
    (record p { accounts = set_at c.place (use_account now) accounts }, some (selected c.account))

unfoldable pub acquire : Catalog → List String → String → ℕ → Pool → Pool × Option Selected
unfolding scan sort_slice pick
acquire catalog tried model_key now p =
    let (accounts, list) = scan catalog tried model_key now 0 p.accounts in
    pick now p accounts (sort_slice [] list)

-- `AcquireByKey` on the first account with the key.
unfoldable pub acquire_account : Catalog → String → ℕ → Account → Account × Option Selected
unfolding use_account selected
acquire_account catalog model_key now a =
    if not (same a.status status_active)
    then (a, none)
    else let (a', limited) = is_rate_limited_rw a model_key now in
      if limited
      then (a', none)
      else let limit = rpm_limit a'.tier in
        if leb limit 0
        then (a', none)
        else if not (same model_key "") && not (is_model_allowed catalog a' model_key)
        then (a', none)
        else let (a'', used) = prune_rpm a' now in
          if leb limit used then (a'', none) else (use_account now a'', some (selected a''))

unfoldable pub acquire_in :
    Catalog → String → String → ℕ → List Account → List Account × Option Selected
unfolding acquire_account
acquire_in catalog api_key model_key now [] = ([], none)
acquire_in catalog api_key model_key now (a ∷ rest) =
    let (rest', sel') = acquire_in catalog api_key model_key now rest in
    if not (same a.api_key api_key)
    then (a ∷ rest', sel')
    else let (a', sel) = acquire_account catalog model_key now a in (a' ∷ rest, sel)

unfoldable pub acquire_by_key : Catalog → String → String → ℕ → Pool → Pool × Option Selected
unfolding acquire_in
acquire_by_key catalog api_key model_key now p =
    let (accounts, sel) = acquire_in catalog api_key model_key now p.accounts in
    (record p { accounts = accounts }, sel)

-- The smaller of two deadlines, where `none` is the code's -1.
unfoldable pub sooner : ℕ → Option ℕ → Option ℕ
sooner t none = some t
sooner t (some s) = if ltb t s then some t else some s

unfoldable pub note_account_deadline : ℕ → Account → Option ℕ → Option ℕ
unfolding sooner
note_account_deadline now a soonest =
    if ltb now a.rate_limited_until then sooner a.rate_limited_until soonest else soonest

unfoldable pub note_deadline : ℕ → Option ℕ → Option ℕ → Option ℕ
unfolding sooner
note_deadline now none soonest = soonest
note_deadline now (some t) soonest = if ltb now t then sooner t soonest else soonest

unfoldable pub note_deadlines : ℕ → String → Account → Option ℕ → Option ℕ
unfolding note_account_deadline note_deadline
note_deadlines now model_key a soonest =
    let s = note_account_deadline now a soonest in
    if not (same model_key "")
    then note_deadline now (Dict.get model_key a.model_rate_limits) s
    else s

-- The guards that make an account count in `IsAllRateLimited`.
unfoldable pub counts_for : Catalog → String → Account → Bool
counts_for catalog model_key a =
    same a.status status_active && (same model_key "" || is_model_allowed catalog a model_key)

-- What `IsAllRateLimited` returns after its loop.
unfoldable pub retry_answer : ℕ → Bool → Option ℕ → Bool × ℕ
retry_answer now false soonest = (false, 0)
retry_answer now true none = (true, 60000)
retry_answer now true (some s) =
    let retry = s - now in (true, if ltb retry 1000 then 1000 else retry)

unfoldable pub all_limited_loop : Catalog → String → ℕ → Bool → Option ℕ → List Account → Bool × ℕ
unfolding counts_for note_deadlines retry_answer
all_limited_loop catalog model_key now any_eligible soonest [] =
    retry_answer now any_eligible soonest
all_limited_loop catalog model_key now any_eligible soonest (a ∷ rest) =
    let skip = all_limited_loop catalog model_key now any_eligible soonest rest in
    let on =
      all_limited_loop catalog model_key now true (note_deadlines now model_key a soonest) rest in
    if not (counts_for catalog model_key a)
    then skip
    else if not (is_rate_limited a model_key now)
    then (false, 0)
    else on

unfoldable pub is_all_rate_limited : Catalog → String → ℕ → Pool → Bool × ℕ
unfolding all_limited_loop
is_all_rate_limited catalog model_key now p =
    all_limited_loop catalog model_key now false none p.accounts
