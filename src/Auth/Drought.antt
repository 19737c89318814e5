-- ===== src/Auth/Drought.antt =====
-- Counts, eligibility and the drought mode of internal/auth/pool.go. Percentages count
-- ten-thousandths of a percent.
pub mod Threshold
use windsurf_to_api_go.Prelude.{
  ℕ, suc, ◌+◌, String, Bool, true, false, not, ◌&&◌, ◌||◌, Option, none, some, List, [], ◌∷◌,
  length, same, contains, ltb, ◌==◌, if◌then◌else◌,
}
use windsurf_to_api_go.Auth.Account.{Credits, Account, Pool, status_active, status_error}

-- `tier_allowed` is the closure that the caller passes.
unfoldable pub has_eligible_in : (String → String → Bool) → String → List Account → Bool
has_eligible_in tier_allowed model_key [] = false
has_eligible_in tier_allowed model_key (a ∷ rest) =
    let more = has_eligible_in tier_allowed model_key rest in
    if not (same a.status status_active)
    then more
    else if not (tier_allowed a.tier model_key)
    then more
    else if not (contains model_key a.blocked_models)
    then true
    else more

unfoldable pub has_eligible : (String → String → Bool) → String → Pool → Bool
unfolding has_eligible_in
has_eligible tier_allowed model_key p = has_eligible_in tier_allowed model_key p.accounts

pub record Counts : Type 0 where
  pub total : ℕ
  pub active : ℕ
  pub error : ℕ

unfoldable pub count_account : Account → Counts → Counts
count_account a c =
    if same a.status status_active
    then record c { active = c.active + 1 }
    else if same a.status status_error
    then record c { error = c.error + 1 }
    else c

unfoldable pub count_in : Counts → List Account → Counts
unfolding count_account
count_in c [] = c
count_in c (a ∷ rest) = count_in (count_account a c) rest

unfoldable pub counts : Pool → Counts
unfolding count_in
counts p = count_in (record { total = length p.accounts; active = 0; error = 0 }) p.accounts

-- 5.0 percent
abbrev pub drought_threshold : ℕ
drought_threshold = 50000

abbrev pub hundred_percent : ℕ
hundred_percent = 1000000

abbrev pub drought_free_models : List String
drought_free_models = "gpt-4o-mini" ∷ "gemini-2.5-flash" ∷ "glm-4.7" ∷ "kimi-k2" ∷ "qwen-3" ∷ []

unfoldable pub credits_percent : Option Credits → ℕ
credits_percent none = hundred_percent
credits_percent (some c) =
    let w = c.weekly_percent in
    let d = c.daily_percent in
    if w == 0 && d == 0
    then hundred_percent
    else if w == 0
    then d
    else if d == 0
    then w
    else if ltb w d
    then w
    else d

unfoldable pub quota_percent : Account → ℕ
unfolding credits_percent
quota_percent a = credits_percent a.credits

unfoldable pub has_signal : Option Credits → Bool
has_signal none = false
has_signal (some c) = not (c.weekly_percent == 0 && c.daily_percent == 0)

-- The loop of `IsDroughtMode`, and of its copy `isDroughtModeLocked`: accounts with a known quota,
-- and those of them below the threshold.
unfoldable pub drought_loop : ℕ → ℕ → List Account → ℕ × ℕ
unfolding quota_percent has_signal
drought_loop known below [] = (known, below)
drought_loop known below (a ∷ rest) =
    let counted = same a.status status_active && has_signal a.credits in
    let low = ltb (quota_percent a) drought_threshold in
    drought_loop (if counted then known + 1 else known)
      (if counted && low then below + 1 else below) rest

unfoldable pub is_drought_mode : Pool → Bool
unfolding drought_loop
is_drought_mode p =
    let (known, below) = drought_loop 0 0 p.accounts in if known == 0 then false else below == known

unfoldable pub is_model_blocked_by_drought : Pool → String → Bool
is_model_blocked_by_drought p model_key =
    if not (is_drought_mode p)
    then false
    else if contains model_key drought_free_models
    then false
    else true

pub record DroughtSummary : Type 0 where
  pub drought : Bool
  pub threshold : ℕ
  pub active_accounts : ℕ
  pub accounts : List (String × ℕ)

unfoldable pub summary_rows : List Account → List (String × ℕ)
summary_rows [] = []
summary_rows (a ∷ rest) =
    if not (same a.status status_active)
    then summary_rows rest
    else (a.id, quota_percent a) ∷ summary_rows rest

unfoldable pub get_drought_summary : Pool → DroughtSummary
unfolding summary_rows
get_drought_summary p = record {
  drought = is_drought_mode p;
  threshold = drought_threshold;
  active_accounts = length (summary_rows p.accounts);
  accounts = summary_rows p.accounts;
}

unfoldable pub is_authenticated_in : List Account → Bool
is_authenticated_in [] = false
is_authenticated_in (a ∷ rest) = same a.status status_active || is_authenticated_in rest

unfoldable pub is_authenticated : Pool → Bool
unfolding is_authenticated_in
is_authenticated p = is_authenticated_in p.accounts
