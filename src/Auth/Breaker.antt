-- ===== src/Auth/Breaker.antt =====
-- The error counters of internal/auth/pool.go over any sequence of reports: three auth errors in a
-- row take an account out, a success brings it back, two internal errors quarantine it.
use windsurf_to_api_go.Prelude.{
  ℕ, ◌+◌, ◌<◌, ◌≤◌, String, Bool, true, some, List, [], ◌∷◌, find, update_first, Bool-cases, inl,
  inr, arith, ◌≡◌, refl, leb, if◌then◌else◌,
}
use mathlib.Core.Path.{subst}
use windsurf_to_api_go.Auth.Account.{Account, Pool, status_active, status_error, save_locked}
use windsurf_to_api_go.Auth.Limits.{is_rate_limited, five_minutes}
use windsurf_to_api_go.Auth.Signals.{
  has_key, count_error, report_error, clear_errors, report_success, count_internal_error,
  report_internal_error,
}

pub data Report : Type 0 where
  auth_error : Report
  success : Report

-- The calls that the chat path makes about one key, in order.
unfoldable pub run_reports : String → List Report → Pool → Pool
run_reports api_key [] p = p
run_reports api_key (auth_error ∷ rs) p = run_reports api_key rs (report_error api_key p)
run_reports api_key (success ∷ rs) p = run_reports api_key rs (report_success api_key p)

-- How many errors stand in a row at the end, `n` of them before the list.
unfoldable pub errors_in_a_row : ℕ → List Report → ℕ
errors_in_a_row n [] = n
errors_in_a_row n (auth_error ∷ rs) = errors_in_a_row (n + 1) rs
errors_in_a_row n (success ∷ rs) = errors_in_a_row 0 rs

-- The account with the key after an update of it.
find-update_first :
    (key : String) (f : Account → Account) (l : List Account) (a : Account)
    → (f a).api_key ≡ a.api_key
    → find (has_key key) l ≡ some a
    → find (has_key key) (update_first (has_key key) f l) ≡ some (f a)
find-update_first key f [] a k h = cc
find-update_first key f (x ∷ l) a k h = elim (Bool-cases (has_key key x)) [
  | inl e ↦
      let q : x ≡ a = ground arith in
      let e' : has_key key a ≡ true = subst (λ y. has_key key y ≡ true) q e in
      rw e (rw q (rw (k, e') refl))
  | inr e ↦ rw (e, e) (find-update_first key f l a k (rw e at h))
]

-- The account has counted `n` errors, and its status follows from them.
pub record Tracks (n : ℕ) (a : Account) : Type 0 where
  pub count : a.error_count ≡ n
  pub status : a.status ≡ (if leb 3 n then status_error else status_active)

count_error-Tracks : (n : ℕ) (a : Account) → Tracks n a → Tracks (n + 1) (count_error a)
unfolding count_error
count_error-Tracks n a h = ground arith

clear_errors-Tracks : (n : ℕ) (a : Account) → Tracks n a → Tracks 0 (clear_errors a)
unfolding clear_errors
clear_errors-Tracks n a h = ground arith

-- If the account with a key has counted `n` auth errors, with the status that follows from them ("error"
-- from the third on, else active), then after any reports about the key its account has counted the
-- auth errors since the last success, with the status that follows from them.
pub run_reports-Tracks :
    (key : String) (rs : List Report) (p : Pool) (a : Account) (n : ℕ)
    → find (has_key key) p.accounts ≡ some a
    → Tracks n a
    → (b : Account) × (find (has_key key) (run_reports key rs p).accounts ≡ some b)
      × Tracks (errors_in_a_row n rs) b
unfolding run_reports errors_in_a_row
run_reports-Tracks key [] p a n h t = (a, h, t)
run_reports-Tracks key (auth_error ∷ rs) p a n h t =
    run_reports-Tracks key rs (report_error key p) (count_error a) (n + 1)
      (unfold report_error in
        find-update_first key count_error p.accounts a (unfold count_error in ground arith) h)
      (count_error-Tracks n a t)
run_reports-Tracks key (success ∷ rs) p a n h t =
    run_reports-Tracks key rs (report_success key p) (clear_errors a) 0
      (unfold report_success in
        find-update_first key clear_errors p.accounts a (unfold clear_errors in ground arith) h)
      (clear_errors-Tracks n a t)

internal-accounts :
    (writable : Bool) (now : ℕ) (key : String) (p : Pool) (a : Account)
    → find (has_key key) p.accounts ≡ some a
    → (report_internal_error writable now key p).accounts
      ≡ update_first (has_key key) (count_internal_error now) p.accounts
unfolding report_internal_error save_locked
internal-accounts writable now key p a h = rw (h, report_internal_error) (ground arith)

-- The second internal error in a row, or a later one, sets the account's window to five minutes from
-- now, whatever it was, and no model is served from the account until then.
pub report_internal_error-window :
    (writable : Bool) (now : ℕ) (key : String) (p : Pool) (a : Account) (model_key : String) (t : ℕ)
    → find (has_key key) p.accounts ≡ some a
    → 1 ≤ a.internal_error_streak
    → t < now + five_minutes
    → (b : Account) × (find (has_key key) (report_internal_error writable now key p).accounts
        ≡ some b)
      × (b.rate_limited_until ≡ now + five_minutes)
      × (is_rate_limited b model_key t ≡ true)
unfolding report_internal_error count_internal_error is_rate_limited
report_internal_error-window writable now key p a model_key t h pos lt = (
  count_internal_error now a,
  rw (internal-accounts writable now key p a h)
      (find-update_first key (count_internal_error now) p.accounts a (ground arith) h),
  ground arith,
  ground arith,
)
