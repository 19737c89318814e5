-- ===== src/Tests/Pages.antt =====
-- The dashboard's pages on concrete rows and answers.
use windsurf_to_api_go.Prelude.{
  String, Bool, true, false, none, some, List, [], ◌∷◌, ◌++◌, length, keep_if, All, ◌≡◌, refl,
  arith,
}
use windsurf_to_api_go.Prelude.Numbers.{show, digits_loop, pad_two}
use windsurf_to_api_go.Prelude.Sorting.{IsSortedBy, lower_key}
use windsurf_to_api_go.Web.Api.Types.Accounts.{AccountRow}
use windsurf_to_api_go.Web.Api.Types.Models.{ModelInfo}
use windsurf_to_api_go.Web.Views.Bans.{sorted_accounts}
use windsurf_to_api_go.Web.Views.Bans.Windows.{rate_entries, fmt_duration, countdown}
use windsurf_to_api_go.Web.Views.Bans.Order.{
  sorted_accounts-keep_if, in_state, is_limited, is_off, is_well, rate_entries-IsOpen, IsOpen,
  is_open, all_windows,
}
use windsurf_to_api_go.Web.Views.Logs.{LogsPage, max_buffer, filtered, filter_sent}
use windsurf_to_api_go.Web.Api.LogStream.{Sent, null, sent_entry}
use windsurf_to_api_go.Prelude.Texts.{trim, lower_text}
use windsurf_to_api_go.Web.Views.Logs.Buffer.{receive_all, well_formed, receive_all-entries}
use windsurf_to_api_go.Prelude.Lists.{last_of}
use windsurf_to_api_go.Web.Layout.{initial, viewport, opened, layout_run}
use windsurf_to_api_go.Web.Layout.Drawer.{DrawerFits, layout_run-DrawerFits}
use windsurf_to_api_go.Web.Views.Models.{ModelsPage}

abbrev row : String → String → Bool → AccountRow
row id status limited = record {
  id = id;
  email = id;
  method = "token";
  status = status;
  added_at = "";
  key_prefix = "sk";
  tier = "pro";
  tier_manual = none;
  capabilities = none;
  last_probed = none;
  credits = none;
  blocked_models = [];
  available_count = 0;
  tier_model_count = 0;
  rpm_used = 0;
  rpm_limit = 60;
  rate_limited = limited;
  rate_limited_until = 500;
  rate_limited_started = some 100;
  rate_limited_models = some (("m1", 300) ∷ ("m2", 900) ∷ []);
  rate_limited_model_starts = some (("m2", 200) ∷ []);
}

abbrev rows : List AccountRow
rows =
    row "a" "active" false
    ∷ row "b" "disabled" false
    ∷ row "c" "error" false
    ∷ row "d" "active" true
    ∷ []

sorted_accounts-keep_if_example :
    sorted_accounts rows
    ≡ keep_if (in_state "error") rows
      ++ (keep_if (in_state "expired") rows
          ++ (keep_if (in_state "invalid") rows
              ++ (keep_if is_limited rows ++ (keep_if is_off rows ++ keep_if is_well rows))))
sorted_accounts-keep_if_example = sorted_accounts-keep_if rows

rate_entries-IsOpen_example :
    All (IsOpen 400) (rate_entries 400 (row "a" "active" true))
    × (IsSortedBy (lower_key (λ e. e.until)) (rate_entries 400 (row "a" "active" true))
        × ((p : _)
            → length (keep_if p (rate_entries 400 (row "a" "active" true)))
              ≡ length (keep_if p (keep_if (is_open 400) (all_windows (row "a" "active" true))))))
rate_entries-IsOpen_example = rate_entries-IsOpen 400 (row "a" "active" true)

-- A minute and 59.5 seconds is shown with sixty seconds, and 59.5 seconds as sixty.
rounded_up : fmt_duration 119500 ≡ "1m60s"
unfolding fmt_duration show digits_loop pad_two
rounded_up = refl

counted_down : countdown 0 119500 ≡ "剩余 1m59s"
unfolding countdown show digits_loop pad_two
counted_down = refl

abbrev entry : String → Sent
entry msg = sent_entry (record { ts = 1; level = "info"; msg = msg })

abbrev log_page : LogsPage
log_page = record {
  entries = entry "a" ∷ [];
  level_filter = "";
  search = "";
  auto_scroll = true;
  stream = none;
}

receive_all-entries_example :
    (receive_all (some (entry "b") ∷ none ∷ some null ∷ []) log_page).entries
    ≡ last_of max_buffer (entry "a" ∷ [] ++ well_formed (some (entry "b") ∷ none ∷ some null ∷ []))
receive_all-entries_example =
    receive_all-entries (some (entry "b") ∷ none ∷ some null ∷ []) log_page (ground arith)

-- A frame that is null stays in the buffer, and a search then fails.
null_breaks_search : filtered (record log_page { entries = null ∷ []; search = "q" }) ≡ none
unfolding filtered filter_sent trim lower_text
null_breaks_search = refl

abbrev model : String → String → ModelInfo
model id provider = record { id = id; name = id; provider = provider }

abbrev models_page : ModelsPage
models_page = record {
  models = model "gpt" "openai" ∷ model "claude" "anthropic" ∷ model "o3" "openai" ∷ [];
  config = record { mode = "all"; list = [] };
  loading = false;
  search = "";
  provider_filter = "";
}

abbrev gpt : String
gpt = "gpt"

layout_run-DrawerFits_example :
    DrawerFits (layout_run (viewport true ∷ opened ∷ viewport false ∷ []) initial)
layout_run-DrawerFits_example =
    layout_run-DrawerFits (viewport true ∷ opened ∷ viewport false ∷ []) initial (λ h. ground arith)
