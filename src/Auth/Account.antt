-- ===== src/Auth/Account.antt =====
-- The rows of the account pool, internal/auth/pool.go. Time stamps are Unix milliseconds. Counters
-- are Go `int`s that count single events, far from 2 ^ 63, and are left unbounded.
use windsurf_to_api_go.Prelude.{
  ℕ, String, Bool, true, false, Option, none, some, List, [], ◌∷◌, map, if◌then◌else◌,
}
use windsurf_to_api_go.Prelude.Dict.{Dict}

abbrev pub status_active : String
status_active = "active"

abbrev pub status_error : String
status_error = "error"

abbrev pub status_disabled : String
status_disabled = "disabled"

pub record Capability : Type 0 where
  pub ok : Bool
  pub last_check : ℕ
  pub reason : String

-- The percentages are floats in the code, and are only compared: here they count ten-thousandths
-- of a percent.
pub record Credits : Type 0 where
  pub plan_name : String
  pub daily_percent : ℕ
  pub weekly_percent : ℕ
  pub daily_reset_at : ℕ
  pub weekly_reset_at : ℕ
  pub fetched_at : ℕ
  pub last_error : String

pub record Account : Type 0 where
  pub id : String
  pub email : String
  pub api_key : String
  pub api_server_url : String
  pub method : String
  pub status : String
  pub added_at : ℕ
  pub tier : String
  pub tier_manual : Bool
  pub capabilities : Dict Capability
  pub last_probed : ℕ
  pub credits : Option Credits
  pub blocked_models : List String
  pub refresh_token : String
  pub id_token : String
  pub rate_limited_until : ℕ
  pub rate_limited_started : ℕ
  pub model_rate_limits : Dict ℕ
  pub model_rate_started : Option (Dict ℕ)
  pub last_used : ℕ
  pub error_count : ℕ
  pub internal_error_streak : ℕ
  pub rpm_history : List ℕ

-- `accounts`, the content last written to the file, and whether the last write failed.
pub record Pool : Type 0 where
  pub accounts : List Account
  pub saved : Option (List Account)
  pub last_save_err : Bool

unfoldable pub new_pool : Option (List Account) → Pool
new_pool on_disk = record { accounts = []; saved = on_disk; last_save_err = false }

-- What the JSON tags keep of an account: the runtime fields are unexported, `IDToken` is `json:"-"`.
-- `omitempty` leaves an empty map out, so that it is read back as nil.
unfoldable pub unless_empty : Option (Dict ℕ) → Option (Dict ℕ)
unless_empty none = none
unless_empty (some []) = none
unless_empty (some (row ∷ m)) = some (row ∷ m)

unfoldable pub persisted : Account → Account
unfolding unless_empty
persisted a = record a {
  model_rate_started = unless_empty a.model_rate_started;
  id_token = "";
  last_used = 0;
  error_count = 0;
  internal_error_streak = 0;
  rpm_history = [];
}

-- `saveLocked`. Whether the file could be written is up to the disk, `writable`.
unfoldable pub save_locked : Bool → Pool → Pool
unfolding persisted
save_locked writable p =
    if writable
    then record p { saved = some (map persisted p.accounts); last_save_err = false }
    else record p { last_save_err = true }

unfoldable pub last_save_error : Pool → Bool
last_save_error p = p.last_save_err
