-- ===== src/Auth/AllLimited.antt =====
-- `IsAllRateLimited` of internal/auth/pool.go: its answer, and how long its caller may wait.
use native.Mathlib.Decide.{dec_lt}
use windsurf_to_api_go.Prelude.{
  ℕ, ◌+◌, ◌<◌, ◌≤◌, String, Bool, true, false, not, ◌&&◌, ◌||◌, Option, none, some, List, [], ◌∷◌,
  All, any, Bool-cases, Option-cases, inl, inr, arith, ◌≡◌, ◌≢◌, ◌⊎◌,
}
use windsurf_to_api_go.Models.{Catalog}
use windsurf_to_api_go.Auth.Account.{Account, Pool}
use windsurf_to_api_go.Auth.Limits.{deadline_after, is_rate_limited}
use windsurf_to_api_go.Auth.Select.{
  counts_for, sooner, note_account_deadline, note_deadline, note_deadlines, retry_answer,
  all_limited_loop, is_all_rate_limited,
}

module _ (catalog : Catalog) (model_key : String) (now : ℕ) where
  -- The accounts that count, and those of them outside every window.
  abbrev pub free_now : Account → Bool
  free_now a = counts_for catalog model_key a && not (is_rate_limited a model_key now)

  all_limited_loop-answer :
      (seen : Bool) (soonest : Option ℕ) (l : List Account)
      → (all_limited_loop catalog model_key now seen soonest l).0
        ≡ ((seen || any (counts_for catalog model_key) l) && not (any free_now l))
  unfolding all_limited_loop retry_answer
  all_limited_loop-answer seen soonest [] = ground arith
  all_limited_loop-answer seen soonest (a ∷ l) = ground (
    arith,
    all_limited_loop-answer seen soonest l,
    all_limited_loop-answer true (note_deadlines now model_key a soonest) l,
  )

  -- `IsAllRateLimited` says yes exactly if some active, allowed account exists and every one is inside
  -- a window for the model.
  pub is_all_rate_limited-answer :
      (p : Pool)
      → (is_all_rate_limited catalog model_key now p).0
        ≡ (any (counts_for catalog model_key) p.accounts && not (any free_now p.accounts))
  unfolding is_all_rate_limited
  is_all_rate_limited-answer p = all_limited_loop-answer false none p.accounts

  -- After an account inside a window a deadline is known, the account stays inside its windows until
  -- then, and the deadline is no later than the one known before.
  note_deadlines-some :
      (a : Account) (soonest : Option ℕ)
      → is_rate_limited a model_key now ≡ true
      → note_deadlines now model_key a soonest ≢ none
  unfolding is_rate_limited deadline_after note_deadlines note_account_deadline note_deadline sooner
  note_deadlines-some a soonest h e = ground arith

  note_deadlines-until :
      (a : Account) (soonest : Option ℕ) (s t : ℕ)
      → is_rate_limited a model_key now ≡ true
      → note_deadlines now model_key a soonest ≡ some s
      → t < s
      → is_rate_limited a model_key t ≡ true
  unfolding is_rate_limited deadline_after note_deadlines note_account_deadline note_deadline sooner
  note_deadlines-until a soonest s t h e lt = ground arith

  note_deadlines-le :
      (a : Account) (s' s : ℕ) → note_deadlines now model_key a (some s') ≡ some s → s ≤ s'
  unfolding note_deadlines note_account_deadline note_deadline sooner
  note_deadlines-le a s' s e = ground arith

  all_limited_loop-second :
      (seen : Bool) (soonest : Option ℕ) (l : List Account) (r : ℕ)
      → all_limited_loop catalog model_key now seen soonest l ≡ (true, r)
      → 1000 ≤ r
  unfolding all_limited_loop retry_answer
  all_limited_loop-second seen soonest [] r e = ground arith
  all_limited_loop-second seen soonest (a ∷ l) r e = ground (
    arith,
    all_limited_loop-second seen soonest l r,
    all_limited_loop-second true (note_deadlines now model_key a soonest) l r,
  )

  all_limited_loop-wait :
      (seen : Bool) (soonest : Option ℕ) (l : List Account) (t r : ℕ)
      → all_limited_loop catalog model_key now seen soonest l ≡ (true, r)
      → 1000 < r
      → t < now + r
      → All (λ a. counts_for catalog model_key a ≡ true → is_rate_limited a model_key t ≡ true) l
        × ((s : ℕ) → soonest ≡ some s → t < s)
  unfolding all_limited_loop retry_answer
  all_limited_loop-wait false soonest [] t r e big lt = cc
  all_limited_loop-wait true none [] t r e big lt = (tt, λ s h. cc)
  all_limited_loop-wait true (some s) [] t r e big lt = (tt, λ s' h. ground arith)
  all_limited_loop-wait seen soonest (a ∷ l) t r e big lt =
      elim (Bool-cases (counts_for catalog model_key a)) [
        | inl c ↦ elim (Bool-cases (is_rate_limited a model_key now)) [
          | inl h ↦
              let rest =
                all_limited_loop-wait true (note_deadlines now model_key a soonest) l t r
                  (rw (c, h) at e) big lt in
              elim (Option-cases (note_deadlines now model_key a soonest)) [
                | inl n ↦ absurd (note_deadlines-some a soonest h n)
                | inr (s, k) ↦
                    let lt' = rest.1 s k in
                    (
                      (λ _. note_deadlines-until a soonest s t h k lt', rest.0),
                      λ s' e'. omega (arith, note_deadlines-le a s' s (rw e' at k)),
                    )
              ]
          | inr h ↦ absurd (ground arith)
        ]
        | inr c ↦
            let rest = all_limited_loop-wait seen soonest l t r (rw c at e) big lt in
            ((λ c'. cc, rest.0), rest.1)
      ]

  Waits : (a : Account) (t : ℕ) → Type 0
  Waits a t = counts_for catalog model_key a ≡ true → is_rate_limited a model_key t ≡ true

  All-Waits :
      (t : ℕ) (l : List Account)
      → All (λ a. Waits a t) l
      → All (λ a. (not (counts_for catalog model_key a) || is_rate_limited a model_key t) ≡ true) l
  unfolding Waits
  All-Waits t [] h = tt
  All-Waits t (a ∷ l) h = (ground (arith, h.0), All-Waits t l h.1)

  -- The wait that `IsAllRateLimited` answers is at least a second. Where it is longer, each active,
  -- allowed account stays inside its windows for the model at all times before its end.
  pub is_all_rate_limited-wait :
      (p : Pool) (r t : ℕ)
      → is_all_rate_limited catalog model_key now p ≡ (true, r)
      → t < now + r
      → (1000 ≤ r)
        × ((r ≡ 1000)
            ⊎ All
                (λ a.
                  (not (counts_for catalog model_key a) || is_rate_limited a model_key t) ≡ true)
                p.accounts)
  unfolding is_all_rate_limited Waits
  is_all_rate_limited-wait p r t e lt =
      let second = all_limited_loop-second false none p.accounts r e in
      (
        second,
        elim (dec_lt 1000 r) [
          | yes big ↦
              inr (
                All-Waits t p.accounts (all_limited_loop-wait false none p.accounts t r e big lt).0)
          | no small ↦ inl (omega arith)
        ],
      )
