-- ===== src/Auth/Registry.antt =====
-- The registry of internal/auth/pool.go: keys stay unique, and a pool comes back from its file.
use windsurf_to_api_go.Prelude.{
  ℕ, suc, ◌<◌, String, Bool, true, false, not, ◌||◌, Option, none, some, List, [], ◌∷◌, ◌++◌, map,
  All, any, find, keep_if, Bool-cases, Option-cases, inl, inr, arith, ◌≡◌, ◌⊎◌, refl, sym, ◌∙◌, ap,
  leb, same, same_iff, if◌then◌else◌,
}
use windsurf_to_api_go.Prelude.Dict.{Dict}
use windsurf_to_api_go.Auth.Account.{unless_empty, Account, Pool, persisted, save_locked, new_pool}
use windsurf_to_api_go.Auth.Signals.{has_key}
use windsurf_to_api_go.Auth.Quarantine.{UniqueKeys, save-accounts}
use mathlib.Core.Path.{subst, ap₂}
use mathlib.Core.List.{append-nil, append_assoc}
use windsurf_to_api_go.Auth.Admin.{
  Disk, rows, loaded, prune_started, revive, load_rows, load, add_by_key, new_account, drop_first,
  remove, has_id,
}

any-snoc :
    (test : Account → Bool) (l : List Account) (a : Account)
    → any test l ≡ false
    → test a ≡ false
    → any test (l ++ a ∷ []) ≡ false
any-snoc test [] a h k = ground arith
any-snoc test (x ∷ l) a h k = ground (arith, any-snoc test l a)

UniqueKeys-snoc :
    (l : List Account) (a : Account)
    → UniqueKeys l
    → any (has_key a.api_key) l ≡ false
    → UniqueKeys (l ++ a ∷ [])
UniqueKeys-snoc [] a u h = (refl, tt)
UniqueKeys-snoc (x ∷ l) a u h = (
  any-snoc (has_key x.api_key) l a u.0
      (ground (arith, same_iff x.api_key a.api_key, same_iff a.api_key x.api_key)),
  UniqueKeys-snoc l a u.1 (ground arith),
)

revive-key : (now : ℕ) (fresh : String) (a : Account) → (revive now fresh a).api_key ≡ a.api_key
unfolding revive
revive-key now fresh a = refl

load_rows-UniqueKeys :
    (now : ℕ) (fresh : ℕ → String) (n : ℕ) (l raw : List Account)
    → UniqueKeys l
    → UniqueKeys (load_rows now fresh n l raw)
unfolding load_rows
load_rows-UniqueKeys now fresh n l [] u = u
load_rows-UniqueKeys now fresh n l (row ∷ raw) u =
    let a = revive now (fresh n) row in
    elim (Bool-cases (any (has_key a.api_key) l)) [
      | inl e ↦ rw e (load_rows-UniqueKeys now fresh (suc n) l raw u)
      | inr e ↦
          rw e (load_rows-UniqueKeys now fresh (suc n) (l ++ a ∷ []) raw (UniqueKeys-snoc l a u e))
    ]

-- Whatever the file holds, `Load` leaves a pool with unique keys if it had unique keys before.
pub load-UniqueKeys :
    (now : ℕ) (fresh : ℕ → String) (disk : Disk) (p : Pool) {p' : Pool}
    → UniqueKeys p.accounts
    → load now fresh disk p ≡ loaded p'
    → UniqueKeys p'.accounts
unfolding load
load-UniqueKeys now fresh (rows raw) p u h =
    ground (arith, load_rows-UniqueKeys now fresh 0 p.accounts raw u)
load-UniqueKeys now fresh _ p u h = ground arith

find-none-any : (test : Account → Bool) (l : List Account) → find test l ≡ none → any test l ≡ false
find-none-any test [] h = refl
find-none-any test (x ∷ l) h = ground (arith, find-none-any test l)

find-some-test :
    (test : Account → Bool) (l : List Account) (a : Account) → find test l ≡ some a → test a ≡ true
find-some-test test [] a h = cc
find-some-test test (x ∷ l) a h = elim (Bool-cases (test x)) [
  | inl e ↦ let q : x ≡ a = ground arith in subst (λ y. test y ≡ true) q e
  | inr e ↦ find-some-test test l a (rw e at h)
]

-- `AddByKey` keeps the keys unique and returns an account with the key; if the pool has the key already,
-- the pool does not change.
pub add_by_key-UniqueKeys :
    (writable : Bool) (now : ℕ) (fresh_id api_key label : String) (p : Pool)
    → UniqueKeys p.accounts
    → UniqueKeys (add_by_key writable now fresh_id api_key label p).0.accounts
      × ((add_by_key writable now fresh_id api_key label p).1.api_key ≡ api_key)
      × ((any (has_key api_key) p.accounts ≡ false)
          ⊎ ((add_by_key writable now fresh_id api_key label p).0 ≡ p))
unfolding add_by_key
add_by_key-UniqueKeys writable now fresh_id api_key label p u =
    elim (Option-cases (find (has_key api_key) p.accounts)) [
      | inl e ↦
          let absent = find-none-any (has_key api_key) p.accounts e in
          rw (e, add_by_key)
            (
              rw save-accounts (UniqueKeys-snoc p.accounts _ u (unfold new_account in absent)),
              unfold new_account in refl,
              inl absent,
            )
      | inr (a, e) ↦
          rw (e, add_by_key)
            (
              u,
              (same_iff a.api_key api_key).0 (find-some-test (has_key api_key) p.accounts a e),
              inr refl,
            )
    ]

any-drop_first :
    (test other : Account → Bool) (l : List Account)
    → any other l ≡ false
    → any other (drop_first test l) ≡ false
unfolding drop_first
any-drop_first test other [] h = refl
any-drop_first test other (x ∷ l) h = ground (arith, any-drop_first test other l)

drop_first-UniqueKeys :
    (test : Account → Bool) (l : List Account) → UniqueKeys l → UniqueKeys (drop_first test l)
unfolding drop_first
drop_first-UniqueKeys test [] u = tt
drop_first-UniqueKeys test (x ∷ l) u =
    ground (arith, drop_first-UniqueKeys test l, any-drop_first test (has_key x.api_key) l)

-- Removing an account keeps the keys unique, and reports whether the id was there.
pub remove-UniqueKeys :
    (writable : Bool) (id : String) (p : Pool)
    → UniqueKeys p.accounts
    → UniqueKeys (remove writable id p).0.accounts
      × ((remove writable id p).1 ≡ any (has_id id) p.accounts)
unfolding remove save_locked
remove-UniqueKeys writable id p u = ground (arith, drop_first-UniqueKeys (has_id id) p.accounts)

-- An account as it can be written and read back at `now` with nothing to mend: its texts are not
-- empty, and its rate-limit windows are still open.
pub record IsSettled (now : ℕ) (a : Account) : Type 0 where
  pub id : same a.id "" ≡ false
  pub status : same a.status "" ≡ false
  pub tier : same a.tier "" ≡ false
  pub method : same a.method "" ≡ false
  pub window : (a.rate_limited_until ≡ 0) ⊎ (now < a.rate_limited_until)
  pub models : All (λ row. now < row.1) a.model_rate_limits

kept_limits :
    (now : ℕ) (m : Dict ℕ) → All (λ row. now < row.1) m → keep_if (λ row. not (leb row.1 now)) m ≡ m
kept_limits now [] h = refl
kept_limits now (row ∷ m) h = ground (arith, kept_limits now m)

kept_starts :
    (now : ℕ) (m : Dict ℕ) (started : Option (Dict ℕ))
    → All (λ row. now < row.1) m
    → prune_started now m started ≡ started
unfolding prune_started
kept_starts now [] started h = refl
kept_starts now ((k, t) ∷ m) started h = ground (arith, kept_starts now m started)

revive-persisted :
    (now : ℕ) (fresh : String) (a : Account)
    → IsSettled now a
    → revive now fresh (persisted a) ≡ persisted a
unfolding revive persisted
revive-persisted now fresh a h = ground (
  arith,
  kept_limits now a.model_rate_limits h.models,
  kept_starts now a.model_rate_limits (unless_empty a.model_rate_started) h.models,
)

any-middle :
    (test : Account → Bool) (xs ys : List Account) (a : Account)
    → any test (xs ++ a ∷ ys) ≡ false
    → test a ≡ false
any-middle test [] ys a h = ground arith
any-middle test (x ∷ xs) ys a h = ground (arith, any-middle test xs ys a)

UniqueKeys-before :
    (xs ys : List Account) (a : Account)
    → UniqueKeys (xs ++ a ∷ ys)
    → any (has_key a.api_key) xs ≡ false
UniqueKeys-before [] ys a u = refl
UniqueKeys-before (x ∷ xs) ys a u = ground (
  arith,
  any-middle (has_key x.api_key) xs ys a u.0,
  same_iff x.api_key a.api_key,
  same_iff a.api_key x.api_key,
  UniqueKeys-before xs ys a u.1,
)

any-persisted :
    (key : String) (l : List Account) → any (has_key key) (map persisted l) ≡ any (has_key key) l
unfolding persisted
any-persisted key [] = refl
any-persisted key (x ∷ l) = ap (◌||◌ (has_key key x)) (any-persisted key l)

UniqueKeys-persisted : (l : List Account) → UniqueKeys l → UniqueKeys (map persisted l)
unfolding persisted
UniqueKeys-persisted [] u = tt
UniqueKeys-persisted (x ∷ l) u = (any-persisted x.api_key l ∙ u.0, UniqueKeys-persisted l u.1)

load_rows-settled :
    (now : ℕ) (fresh : ℕ → String) (n : ℕ) (done l : List Account)
    → UniqueKeys (done ++ map persisted l)
    → All (IsSettled now) l
    → load_rows now fresh n done (map persisted l) ≡ done ++ map persisted l
unfolding load_rows
load_rows-settled now fresh n done [] u h = sym (append-nil done)
load_rows-settled now fresh n done (a ∷ l) u h =
    let written = persisted a in
    let step = λ (b : Bool) (x : Account).
      load_rows now fresh (suc n) (if b then done else done ++ x ∷ []) (map persisted l) in
    let new = UniqueKeys-before done (map persisted l) written u in
    let regroup = append_assoc done (written ∷ []) (map persisted l) in
    ap₂ step new (revive-persisted now (fresh n) a h.0)
    ∙ load_rows-settled now fresh (suc n) (done ++ written ∷ []) l
        (subst UniqueKeys (sym regroup) u) h.1
    ∙ regroup

-- What `saveLocked` wrote, `Load` reads back into an empty pool: the same accounts in the same order,
-- without their runtime fields, if the keys are unique and the accounts need no mending at that time.
pub load-save :
    (now : ℕ) (fresh : ℕ → String) (p : Pool) (old : Option (List Account))
    → UniqueKeys p.accounts
    → All (IsSettled now) p.accounts
    → let written = map persisted p.accounts in
      ((save_locked true p).saved ≡ some written)
      × (load now fresh (rows written) (new_pool old)
          ≡ loaded (record (new_pool old) { accounts = written }))
unfolding load save_locked new_pool
load-save now fresh p old u h = (
  refl,
  ap (λ l. loaded (record (new_pool old) { accounts = l }))
      (load_rows-settled now fresh 0 [] p.accounts (UniqueKeys-persisted p.accounts u) h),
)
