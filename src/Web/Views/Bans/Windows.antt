-- ===== src/Web/Views/Bans/Windows.antt =====
-- web/src/views/Bans.vue: labels, the windows of an account and how long they last.
use Prim.Native.String.{◌++◌ as ◌<>◌}
use windsurf_to_api_go.Prelude.{
  ℕ, ◌-◌, ◌/◌, ◌%◌, String, Bool, false, ◌&&◌, Option, none, some, List, [], ◌∷◌, ◌++◌, ◌==◌, leb,
  ltb, same, if◌then◌else◌,
}
use windsurf_to_api_go.Prelude.Dict.{Dict}
use windsurf_to_api_go.Prelude.Dict
use windsurf_to_api_go.Prelude.Numbers.{show, pad_two, round_div}
use windsurf_to_api_go.Prelude.Texts.{is_blank, lower_text, upper_text, first_chars, after_first}
use windsurf_to_api_go.Prelude.Sorting.{sort_by, lower_key}
use windsurf_to_api_go.Web.Api.Types.Accounts.{AccountRow}
use windsurf_to_api_go.Web.Views.Page.{or_none, or_value}
use windsurf_to_api_go.Web.Views.Accounts.Rows.{status_label}

-- A `switch` of its own, on the texts that the one of the accounts page tests.
unfoldable pub status_color : String → String
status_color status =
    if same status "active"
    then "success"
    else if same status "error"
    then "error"
    else if same status "expired"
    then "warning"
    else "default"

unfoldable pub tier_label : String → String
unfolding lower_text upper_text first_chars
tier_label tier =
    if is_blank tier
    then "—"
    else if same (lower_text tier) "pro"
    then "Pro"
    else if same (lower_text tier) "free"
    then "Free"
    else if same (lower_text tier) "expired"
    then "Expired"
    else if same (lower_text tier) "unknown"
    then "Unknown"
    else upper_text (first_chars 1 tier) <> lower_text (after_first tier)

pub record StatusTag : Type 0 where
  pub label : String
  pub color : String

-- `statusLabel` here is word for word that of the accounts page.
unfoldable pub display_status : Option Bool → Option String → StatusTag
unfolding status_color status_label
display_status rate_limited status =
    if or_value false rate_limited && same (or_value "" status) "active"
    then record { label = "限速"; color = "warning" }
    else record {
      label = status_label (or_value "" status);
      color = status_color (or_value "" status);
    }

-- The text of a countdown to `ts`.
unfoldable pub countdown : ℕ → ℕ → String
unfolding show pad_two
countdown now ts =
    let remain = ts - now in
    if leb ts now
    then "即将解除"
    else if leb 1 (remain / 60000)
    then "剩余 " <> show (remain / 60000) <> "m" <> pad_two (remain % 60000 / 1000) <> "s"
    else "剩余 " <> show (remain % 60000 / 1000) <> "s"

pub data RateKind : Type 0 where
  account_kind : RateKind
  model_kind : RateKind

pub record RateEntry : Type 0 where
  pub kind : RateKind
  pub model : Option String
  pub started : ℕ
  pub until : ℕ

abbrev pub account_entries : ℕ → Option ℕ → Option ℕ → List RateEntry
account_entries now none started = []
account_entries now (some until) started =
    if ltb 0 until && ltb now until
    then record { kind = account_kind; model = none; started = or_value 0 started; until = until }
      ∷ []
    else []

unfoldable pub model_entries : ℕ → Dict ℕ → Dict ℕ → List RateEntry
unfolding Dict.get
model_entries now starts [] = []
model_entries now starts ((model, until) ∷ rest) =
    let more = model_entries now starts rest in
    if ltb now until
    then record {
      kind = model_kind;
      model = some model;
      started = or_value 0 (Dict.get model starts);
      until = until;
    }
      ∷ more
    else more

-- `rateEntries`, before the sort.
unfoldable pub open_windows : ℕ → AccountRow → List RateEntry
unfolding model_entries
open_windows now a =
    account_entries now (some a.rate_limited_until) a.rate_limited_started
    ++ model_entries now (or_none a.rate_limited_model_starts) (or_none a.rate_limited_models)

unfoldable pub rate_entries : ℕ → AccountRow → List RateEntry
unfolding sort_by open_windows
rate_entries now a = sort_by (lower_key (λ e. e.until)) (open_windows now a)

-- The source rounds the seconds, so that 59 500 ms and more of a minute are shown as 60 seconds.
unfoldable pub fmt_duration : ℕ → String
unfolding show pad_two
fmt_duration ms =
    let mins = ms / 60000 in
    if ms == 0
    then "—"
    else if ltb ms 60000
    then show (round_div ms 1000) <> " s"
    else if leb 60 mins
    then show (mins / 60) <> "h" <> pad_two (mins % 60) <> "m"
    else show mins <> "m" <> pad_two (round_div (ms % 60000) 1000) <> "s"
