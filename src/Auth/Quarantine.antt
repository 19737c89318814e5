-- ===== src/Auth/Quarantine.antt =====
-- Rate-limit windows over time, internal/auth/pool.go: how long they are, what they keep from being
-- chosen, and what `IsAllRateLimited` tells a caller.
use mathlib.Core.List.{Memᴰ}
use windsurf_to_api_go.Prelude.{
  ℕ, ◌+◌, ◌*◌, ◌%◌, ◌<◌, ◌≤◌, String, Bool, true, false, none, some, List, [], ◌∷◌, any, find,
  update_first, Bool-cases, Option-cases, inl, inr, arith, ◌≡◌, ◌≢◌, ◌⊎◌, refl, sym, ◌∙◌, ap,
  same_iff,
}
use windsurf_to_api_go.Prelude.Dict
use windsurf_to_api_go.Models.{Catalog}
use windsurf_to_api_go.BanHistory.{Ring}
use windsurf_to_api_go.Auth.Account.{Account, Pool, save_locked}
use windsurf_to_api_go.Auth.Limits.{effective_rate_limit_window, deadline_after, is_rate_limited}
use windsurf_to_api_go.Auth.Select.{Selected, selected, acquire}
use windsurf_to_api_go.Auth.Signals.{has_key, quarantine, mark_rate_limited}
use windsurf_to_api_go.Auth.Eligibility.{is_eligible}
use windsurf_to_api_go.Auth.Acquire.{acquire-best}

-- The window that the pool waits is a whole number of minutes: from a duration of whole milliseconds
-- it is at least a minute longer, and less than two.
pub effective_window_bounds :
    (ms : ℕ)
    → let w = effective_rate_limit_window (ms * 1000000) in
      (ms + 60000 ≤ w) × (w < ms + 120000) × (w % 60000 ≡ 0)
unfolding effective_rate_limit_window
effective_window_bounds ms = ground arith

-- The account is inside a window for the model: the quarantine that was set has not run out.
quarantine-limited :
    (model_key asked : String) (start until t : ℕ) (a : Account)
    → (model_key ≡ "") ⊎ (asked ≡ model_key)
    → t < until
    → is_rate_limited (quarantine model_key start until a) asked t ≡ true
unfolding is_rate_limited quarantine deadline_after
quarantine-limited model_key asked start until t a (inl e) h = ground (arith, same_iff model_key "")
quarantine-limited model_key asked start until t a (inr e) h =
    rw e (ground (arith, Dict.get-put_self model_key until a.model_rate_limits))

-- No two accounts of the pool have the same key.
abbrev pub UniqueKeys : List Account → Type 0
UniqueKeys [] = Unit
UniqueKeys (a ∷ l) = (any (has_key a.api_key) l ≡ false) × UniqueKeys l

Mem-cons : (a x : Account) (l : List Account) → Memᴰ a (x ∷ l) → (a ≡ x) ⊎ Memᴰ a l
Mem-cons a x l (Memᴰ.head e) = inl e
Mem-cons a x l (Memᴰ.tail m) = inr m

any-mem :
    (test : Account → Bool) (l : List Account) (a : Account)
    → Memᴰ a l
    → any test l ≡ false
    → test a ≡ false
any-mem test [] a m h = elim m [ ]
any-mem test (x ∷ l) a m h = elim (Mem-cons a x l m) [
  | inl e ↦ rw e (ground arith)
  | inr m' ↦ any-mem test l a m' (ground arith)
]

-- With unique keys, whoever has the key after an update is the updated account.
update_first-mem :
    (key : String) (f : Account → Account) (l : List Account) (a : Account)
    → UniqueKeys l
    → Memᴰ a (update_first (has_key key) f l)
    → has_key key a ≡ true
    → (b : Account) × (a ≡ f b)
update_first-mem key f [] a u m h = elim m [ ]
update_first-mem key f (x ∷ l) a u m h = elim (Bool-cases (has_key key x)) [
  | inl e ↦ elim (Mem-cons a (f x) l (rw e at m)) [
    | inl e' ↦ (x, e')
    | inr m' ↦ absurd (
        ground (
          arith,
          any-mem (has_key x.api_key) l a m' u.0,
          same_iff x.api_key key,
          same_iff a.api_key key,
          same_iff a.api_key x.api_key,
        ))
  ]
  | inr e ↦ elim (Mem-cons a x (update_first (has_key key) f l) (rw e at m)) [
    | inl e' ↦ absurd (ground arith)
    | inr m' ↦ update_first-mem key f l a u.1 m' h
  ]
]

update_first_absent :
    (test : Account → Bool) (f : Account → Account) (l : List Account)
    → find test l ≡ none
    → update_first test f l ≡ l
update_first_absent test f [] h = refl
update_first_absent test f (x ∷ l) h = ground (arith, update_first_absent test f l)

pub save-accounts : (writable : Bool) (p : Pool) → (save_locked writable p).accounts ≡ p.accounts
unfolding save_locked
save-accounts writable p = ground arith

mark-accounts :
    (writable : Bool) (start : ℕ) (api_key : String) (d : ℕ) (model_key : String) (p : Pool)
    (ring : Ring)
    → (mark_rate_limited writable start api_key d model_key (p, ring)).0.accounts
      ≡ update_first
          (has_key api_key)
          (quarantine model_key start (start + effective_rate_limit_window d))
          p.accounts
unfolding mark_rate_limited
mark-accounts writable start api_key d model_key p ring =
    elim (Option-cases (find (has_key api_key) p.accounts)) [
      | inl e ↦ rw (e, mark_rate_limited) (sym (update_first_absent _ _ p.accounts e))
      | inr (a, e) ↦ rw (e, mark_rate_limited) (save-accounts writable _)
    ]

limited_not_eligible :
    (catalog : Catalog) (tried : List String) (asked : String) (t : ℕ) (a : Account)
    → is_rate_limited a asked t ≡ true
    → is_eligible catalog tried asked t a ≡ true
    → ⊥
unfolding is_eligible
limited_not_eligible catalog tried asked t a h ok = ground arith

module _ (catalog : Catalog) (tried : List String) (asked : String) where
  -- In a pool of unique keys, an `Acquire` that directly follows `MarkRateLimited` does not return the key
  -- before the window that the mark set has run out: for the model, or, after a mark for the empty
  -- model, for any model.
  pub mark_rate_limited-acquire :
      (writable : Bool) (start : ℕ) (api_key : String) (d : ℕ) (model_key : String) (p : Pool)
      (ring : Ring) (t : ℕ) {sel : Selected}
      → UniqueKeys p.accounts
      → (model_key ≡ "") ⊎ (asked ≡ model_key)
      → t < start + effective_rate_limit_window d
      → (acquire catalog tried asked t
          (mark_rate_limited writable start api_key d model_key (p, ring)).0).1
        ≡ some sel
      → sel.api_key ≢ api_key
  unfolding selected
  mark_rate_limited-acquire writable start api_key d model_key p ring t u for_model h got e =
      let (a, m, ok, answer, _) = acquire-best catalog tried asked t _ got in
      let key_of = λ (x : Selected). x.api_key in
      let limited_at = λ (x : Account). is_rate_limited x asked t in
      let until = start + effective_rate_limit_window d in
      let key : has_key api_key a ≡ true =
        (same_iff a.api_key api_key).1 (sym (ap key_of answer) ∙ e) in
      let (b, q) =
        update_first-mem api_key (quarantine model_key start until) p.accounts a u
          (rw mark-accounts at m) key in
      let limited = quarantine-limited model_key asked start until t b for_model h in
      limited_not_eligible catalog tried asked t a (ap limited_at q ∙ limited) ok
