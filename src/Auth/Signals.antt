-- ===== src/Auth/Signals.antt =====
-- What the chat path reports about an account: `MarkRateLimited`, `ReportError`, `ReportSuccess`,
-- `ReportInternalError` and `UpdateCapability` of internal/auth/pool.go. Each acts on the first
-- account with the key. `writable` says whether the disk takes a save; log lines are left out.
use windsurf_to_api_go.Prelude.{
  Option, [], ℕ, ◌+◌, ◌/◌, String, Bool, not, ◌&&◌, any, find, update_first, same, leb, ltb, none,
  some, if◌then◌else◌,
}
use windsurf_to_api_go.Prelude.Dict
use windsurf_to_api_go.Prelude.Dict.{Dict}
use windsurf_to_api_go.BanHistory.{Entry, Ring, record_entry}
use windsurf_to_api_go.Auth.Account.{Account, Pool, status_active, status_error, save_locked}
use windsurf_to_api_go.Auth.Limits.{five_minutes, effective_rate_limit_window, infer_tier}

abbrev pub has_key : String → Account → Bool
has_key api_key a = same a.api_key api_key

-- The map, or a new one in the place of nil.
abbrev pub or_empty_map : Option (Dict ℕ) → Dict ℕ
or_empty_map none = []
or_empty_map (some m) = m

unfoldable pub quarantine : String → ℕ → ℕ → Account → Account
quarantine model_key start until a =
    if not (same model_key "")
    then record a {
      model_rate_limits = Dict.put model_key until a.model_rate_limits;
      model_rate_started = some (Dict.put model_key start (or_empty_map a.model_rate_started));
    }
    else record a { rate_limited_until = until; rate_limited_started = start }

unfoldable pub ban_entry : String → ℕ → ℕ → ℕ → Account → Entry
ban_entry model_key d start until a = record {
  ts = start;
  account_id = a.id;
  email = a.email;
  model = model_key;
  server = d / 1000000;
  effective = effective_rate_limit_window d;
  until = until;
}

-- `d` is in nanoseconds. An unknown key changes nothing, and writes nothing.
unfoldable pub mark_rate_limited : Bool → ℕ → String → ℕ → String → Pool × Ring → Pool × Ring
unfolding quarantine ban_entry
mark_rate_limited writable start api_key d model_key (p, ring) =
    let until = start + effective_rate_limit_window d in
    elim (find (has_key api_key) p.accounts) [
      | none ↦ (p, ring)
      | some a ↦ (
        save_locked writable (record p {
          accounts = update_first (has_key api_key) (quarantine model_key start until) p.accounts;
        }),
        record_entry start (ban_entry model_key d start until a) ring,
      )
    ]

unfoldable pub count_error : Account → Account
count_error a =
    let n = a.error_count + 1 in
    if leb 3 n
    then record a { error_count = n; status = status_error }
    else record a { error_count = n }

unfoldable pub report_error : String → Pool → Pool
unfolding count_error
report_error api_key p = record p {
  accounts = update_first (has_key api_key) count_error p.accounts;
}

unfoldable pub clear_errors : Account → Account
clear_errors a =
    if ltb 0 a.error_count
    then record a { error_count = 0; status = status_active; internal_error_streak = 0 }
    else record a { internal_error_streak = 0 }

unfoldable pub report_success : String → Pool → Pool
unfolding clear_errors
report_success api_key p = record p {
  accounts = update_first (has_key api_key) clear_errors p.accounts;
}

unfoldable pub count_internal_error : ℕ → Account → Account
count_internal_error now a =
    let n = a.internal_error_streak + 1 in
    if leb 2 n
    then record a {
      internal_error_streak = n;
      rate_limited_started = now;
      rate_limited_until = now + five_minutes;
    }
    else record a { internal_error_streak = n }

-- The pool is saved only when the account was quarantined.
unfoldable pub report_internal_error : Bool → ℕ → String → Pool → Pool
unfolding count_internal_error
report_internal_error writable now api_key p = elim (find (has_key api_key) p.accounts) [
  | none ↦ p
  | some a ↦
      let p' = record p {
        accounts = update_first (has_key api_key) (count_internal_error now) p.accounts;
      } in
      if leb 2 (a.internal_error_streak + 1) then save_locked writable p' else p'
]

unfoldable pub learn : String → Bool → ℕ → String → Account → Account
learn model_key ok now reason a =
    let caps =
      Dict.put model_key (record { ok = ok; last_check = now; reason = reason }) a.capabilities in
    if not a.tier_manual
    then record a { capabilities = caps; tier = infer_tier caps }
    else record a { capabilities = caps }

unfoldable pub update_capability : Bool → ℕ → String → String → Bool → String → Pool → Pool
unfolding learn
update_capability writable now api_key model_key ok reason p =
    if same reason "transport_error"
    then p
    else if not ok && same reason "rate_limit"
    then p
    else if not (any (has_key api_key) p.accounts)
    then p
    else save_locked writable (record p {
      accounts = update_first (has_key api_key) (learn model_key ok now reason) p.accounts;
    })
