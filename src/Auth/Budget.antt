-- ===== src/Auth/Budget.antt =====
-- The requests-per-minute budget under `Acquire` and `AcquireByKey` of internal/auth/pool.go.
use windsurf_to_api_go.Prelude.{
  ℕ, zero, suc, ◌+◌, ◌-◌, ◌<◌, ◌≤◌, String, Bool, Option, none, some, List, [], ◌∷◌, ◌++◌, All,
  Bool-cases, inl, inr, arith, ◌≡◌, refl, ap, leb, same, length, keep_if,
}
use windsurf_to_api_go.Models.{Catalog}
use windsurf_to_api_go.Auth.Account.{Account, Pool}
use windsurf_to_api_go.Auth.Limits.{
  rpm_limit, rpm_window, is_rate_limited_rw, drop_deadline, prune_rpm,
}
use windsurf_to_api_go.Auth.Select.{Cand, use_account, acquire_account, acquire_in, acquire_by_key}
use windsurf_to_api_go.Auth.Eligibility.{window_count}

-- The account has made no more requests in the minute before `now` than its tier allows.
abbrev pub WithinBudget : ℕ → Account → Type 0
WithinBudget now a = window_count a now ≤ rpm_limit a.tier

keep_if_idem {ℓ} :
    {A : Type ℓ} (test : A → Bool) (xs : List A) → keep_if test (keep_if test xs) ≡ keep_if test xs
keep_if_idem test [] = refl
keep_if_idem test (x ∷ xs) = elim (Bool-cases (test x)) [
  | inl e ↦ rw (e, e) (ap (◌∷◌ x) (keep_if_idem test xs))
  | inr e ↦ rw e (keep_if_idem test xs)
]

length-keep_if-snoc :
    (test : ℕ → Bool) (xs : List ℕ) (x : ℕ)
    → length (keep_if test (xs ++ x ∷ [])) ≤ length (keep_if test xs) + 1
length-keep_if-snoc test [] x = ground arith
length-keep_if-snoc test (y ∷ xs) x = ground (arith, length-keep_if-snoc test xs x)

length-keep_if_later :
    (cut cut' : ℕ) (xs : List ℕ)
    → cut ≤ cut'
    → length (keep_if (λ t. leb cut' t) xs) ≤ length (keep_if (λ t. leb cut t) xs)
length-keep_if_later cut cut' [] h = omega arith
length-keep_if_later cut cut' (x ∷ xs) h = ground (arith, length-keep_if_later cut cut' xs h)

-- With time alone the budget only recovers.
pub WithinBudget-later :
    (now now' : ℕ) (a : Account) → now ≤ now' → WithinBudget now a → WithinBudget now' a
unfolding window_count
WithinBudget-later now now' a h w =
    omega (
      arith,
      length-keep_if_later (now - rpm_window) (now' - rpm_window) a.rpm_history (omega arith),
    )

All-later :
    (l : List Account) (earlier now : ℕ)
    → earlier ≤ now
    → All (WithinBudget earlier) l
    → All (WithinBudget now) l
All-later [] earlier now le h = tt
All-later (a ∷ l) earlier now le h =
    (WithinBudget-later earlier now a le h.0, All-later l earlier now le h.1)

-- Does a step leave the tier alone, and the requests of the last minute?
record KeepsBudget (now : ℕ) (a a' : Account) : Type 0 where
  tier : a'.tier ≡ a.tier
  count : window_count a' now ≡ window_count a now

drop_deadline-KeepsBudget :
    (model_key : String) (now : ℕ) (a : Account)
    → KeepsBudget now a (is_rate_limited_rw a model_key now).0
unfolding is_rate_limited_rw drop_deadline window_count
drop_deadline-KeepsBudget model_key now a = ground arith

prune-KeepsBudget : (now : ℕ) (a : Account) → KeepsBudget now a (prune_rpm a now).0
unfolding prune_rpm window_count
prune-KeepsBudget now a = record {
  tier = refl;
  count = ap length (keep_if_idem (λ t. leb (now - rpm_window) t) a.rpm_history);
}

-- One more request, on an account with room for it.
use_account-WithinBudget :
    (now : ℕ) (a : Account)
    → window_count a now < rpm_limit a.tier
    → WithinBudget now (use_account now a)
unfolding use_account window_count
use_account-WithinBudget now a h =
    omega (arith, length-keep_if-snoc (λ t. leb (now - rpm_window) t) a.rpm_history now)

abbrev HasRoom : ℕ → Cand → Type 0
HasRoom now c = window_count c.account now < rpm_limit c.account.tier

-- The account at a place.
abbrev place_of : ℕ → List Account → Option Account
place_of j [] = none
place_of zero (a ∷ l) = some a
place_of (suc j) (a ∷ l) = place_of j l

module _ (catalog : Catalog) (tried : List String) (model_key : String) (now : ℕ) where
  -- A candidate stands at its place among the accounts that the loop leaves, and has room.
  abbrev Placed : ℕ → List Account → Cand → Type 0
  Placed i l c = (j : ℕ) × (c.place ≡ i + j) × (place_of j l ≡ some c.account) × HasRoom now c

module _ (catalog : Catalog) (model_key : String) (now : ℕ) where
  acquire_account-WithinBudget :
      (a : Account)
      → WithinBudget now a
      → WithinBudget now (acquire_account catalog model_key now a).0
  unfolding acquire_account
  acquire_account-WithinBudget a h =
      let limited = (is_rate_limited_rw a model_key now).0 in
      let d = drop_deadline-KeepsBudget model_key now a in
      let r = prune-KeepsBudget now limited in
      let used : (prune_rpm limited now).1 ≡ window_count limited now =
        unfold prune_rpm window_count in refl in
      ground (arith, use_account-WithinBudget now (prune_rpm limited now).0)

  acquire_in-WithinBudget :
      (api_key : String) (l : List Account)
      → All (WithinBudget now) l
      → All (WithinBudget now) (acquire_in catalog api_key model_key now l).0
  unfolding acquire_in
  acquire_in-WithinBudget api_key [] h = tt
  acquire_in-WithinBudget api_key (a ∷ l) h = elim (Bool-cases (same a.api_key api_key)) [
    | inl e ↦ rw e (acquire_account-WithinBudget a h.0, h.1)
    | inr e ↦ rw e (h.0, acquire_in-WithinBudget api_key l h.1)
  ]

  -- `AcquireByKey` keeps every account within its requests per minute: if each was at the clock of an
  -- earlier call, each is at the clock of this one.
  pub acquire_by_key-WithinBudget :
      (p : Pool) (api_key : String) (earlier : ℕ)
      → earlier ≤ now
      → All (WithinBudget earlier) p.accounts
      → All (WithinBudget now) (acquire_by_key catalog api_key model_key now p).0.accounts
  unfolding acquire_by_key
  acquire_by_key-WithinBudget p api_key earlier le h =
      acquire_in-WithinBudget api_key p.accounts (All-later p.accounts earlier now le h)
