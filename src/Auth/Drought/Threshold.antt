-- ===== src/Auth/Drought/Threshold.antt =====
-- What drought mode means, without its counters, and which models it blocks.
use windsurf_to_api_go.Prelude.{
  ℕ, ◌+◌, ◌≤◌, String, Bool, true, false, not, ◌&&◌, ◌||◌, List, [], ◌∷◌, any, contains, length,
  arith, ◌≡◌, ltb, ◌==◌, same, if◌then◌else◌,
}
use windsurf_to_api_go.Auth.Account.{Account, Pool, status_active}
use windsurf_to_api_go.Auth.Drought.{
  quota_percent, has_signal, drought_loop, is_drought_mode, is_model_blocked_by_drought,
  drought_threshold, drought_free_models, Counts, count_account, count_in, counts,
  is_authenticated_in, is_authenticated,
}

-- An active account whose quota is known.
unfoldable pub is_known : Account → Bool
is_known a = same a.status status_active && has_signal a.credits

abbrev pub has_quota : Account → Bool
has_quota a = is_known a && not (ltb (quota_percent a) drought_threshold)

drought_step :
    (known below : ℕ) (counted low some_known some_quota : Bool) (k b : ℕ)
    → below ≤ known
    → (b ≤ k)
      × ((k == 0) ≡ ((if counted then known + 1 else known) == 0 && not some_known))
      × ((b == k) ≡ (
          (if counted && low then below + 1 else below) == (if counted then known + 1 else known)
          && not some_quota))
    → (b ≤ k)
      × ((k == 0) ≡ (known == 0 && not (counted || some_known)))
      × ((b == k) ≡ (below == known && not (counted && not low || some_quota)))
drought_step known below true true some_known some_quota k b h ih = ground arith
drought_step known below true false some_known some_quota k b h ih = ground arith
drought_step known below false low some_known some_quota k b h ih = ground arith

drought_loop-answer :
    (known below : ℕ) (l : List Account)
    → below ≤ known
    → let (k, b) = drought_loop known below l in
      (b ≤ k)
      × ((k == 0) ≡ (known == 0 && not (any is_known l)))
      × ((b == k) ≡ (below == known && not (any has_quota l)))
unfolding drought_loop is_known
drought_loop-answer known below [] h = ground arith
drought_loop-answer known below (a ∷ l) h =
    let counted = same a.status status_active && has_signal a.credits in
    let low = ltb (quota_percent a) drought_threshold in
    let known' = if counted then known + 1 else known in
    let below' = if counted && low then below + 1 else below in
    let ih = drought_loop-answer known' below' l (ground arith) in
    drought_step known below counted low (any is_known l) (any has_quota l)
      (drought_loop known' below' l).0 (drought_loop known' below' l).1 h ih

-- Drought mode: some active account's quota is known, and every known one is below the threshold.
pub is_drought_mode-answer :
    (p : Pool) → is_drought_mode p ≡ (any is_known p.accounts && not (any has_quota p.accounts))
unfolding is_drought_mode
is_drought_mode-answer p = ground (arith, drought_loop-answer 0 0 p.accounts (omega arith))

-- A model that is not one of the free ones is blocked exactly if some active account's quota is known and
-- no known one reaches the threshold: the smaller of the weekly and the daily percentage that are not 0.
pub is_model_blocked-answer :
    (p : Pool) (model_key : String)
    → is_model_blocked_by_drought p model_key ≡ (
        any is_known p.accounts
        && not (any has_quota p.accounts)
        && not (contains model_key drought_free_models))
unfolding is_model_blocked_by_drought
is_model_blocked-answer p model_key = ground (arith, is_drought_mode-answer p)

count_in-sums :
    (c : Counts) (l : List Account)
    → let c' = count_in c l in
      (c'.total ≡ c.total)
      × (c'.active + c'.error ≤ c.active + c.error + length l)
      × ((c'.active == 0) ≡ (c.active == 0 && not (is_authenticated_in l)))
unfolding count_in count_account is_authenticated_in
count_in-sums c [] = ground arith
count_in-sums c (a ∷ l) = ground (arith, count_in-sums (count_account a c) l)

-- The three counts fit together, and some account is active exactly if the pool is authenticated.
pub counts-consistent :
    (p : Pool)
    → let c = counts p in
      (c.active + c.error ≤ c.total) × ((c.active == 0) ≡ not (is_authenticated p))
unfolding counts is_authenticated
counts-consistent p =
    ground (
      arith,
      count_in-sums (record { total = length p.accounts; active = 0; error = 0 }) p.accounts,
    )
