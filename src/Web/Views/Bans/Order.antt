-- ===== src/Web/Views/Bans/Order.antt =====
-- The order of the rows of web/src/views/Bans.vue.
use windsurf_to_api_go.Prelude.{
  map, ap, ◌∙◌, ℕ, ◌<◌, ◌≡◌, Bool, Option, some, none, ltb, List, [], ◌∷◌, length, keep_if, All,
  arith, Bool-cases, inl, inr,
}
use windsurf_to_api_go.Prelude.Dict.{Dict}
use windsurf_to_api_go.Prelude.Dict
use windsurf_to_api_go.Prelude.Tests.{same, same_iff, ◌==◌}
use windsurf_to_api_go.Prelude.Lists.{append_nil, keep_if_ext, All_of}
use windsurf_to_api_go.Prelude.{◌∙◌, String, not, ◌&&◌, ◌||◌, ◌++◌, true, false, refl}
use windsurf_to_api_go.Prelude.Sorting.Groups.{Among, Descends, in_groups, sort_by-in_groups}
use windsurf_to_api_go.Prelude.Sorting.{
  lower_key, IsSortedBy, sort_by-IsSortedBy, sort_by-All, count_sort_by, lower_asym, lower_trans,
}
use windsurf_to_api_go.Web.Api.Types.Accounts.{AccountRow}
use windsurf_to_api_go.Web.Views.Page.{or_none, or_value}
use windsurf_to_api_go.Web.Views.Bans.{sorted_accounts, severity_score}
use windsurf_to_api_go.Web.Views.Bans.Windows.{
  RateEntry, account_kind, model_kind, open_windows, account_entries, model_entries, rate_entries,
}

-- How a row stands on the page, whatever its score.
abbrev pub in_state : String → AccountRow → Bool
in_state status a = same a.status status

abbrev pub is_broken : AccountRow → Bool
is_broken a = in_state "error" a || in_state "expired" a || in_state "invalid" a

abbrev pub is_limited : AccountRow → Bool
is_limited a = a.rate_limited && not (is_broken a)

abbrev pub is_off : AccountRow → Bool
is_off a = in_state "disabled" a && not a.rate_limited

abbrev pub is_well : AccountRow → Bool
is_well a = not (is_broken a) && not a.rate_limited && not (in_state "disabled" a)

abbrev scores : List ℕ
scores = 50 ∷ 40 ∷ 35 ∷ 30 ∷ 10 ∷ 0 ∷ []

descends : Descends scores
descends = ground arith

other_text : (s t u : String) → same s t ≡ true → same t u ≡ false → same s u ≡ false
other_text s t u h g = rw ((same_iff s t).0 h) g

severity_score-Among : (a : AccountRow) → Among (severity_score a) scores
unfolding severity_score
severity_score-Among a = ground arith

score_error : (a : AccountRow) → (severity_score a == 50) ≡ in_state "error" a
unfolding severity_score
score_error a = ground arith

score_expired : (a : AccountRow) → (severity_score a == 40) ≡ in_state "expired" a
unfolding severity_score
score_expired a = ground (arith, other_text a.status "expired" "error")

score_invalid : (a : AccountRow) → (severity_score a == 35) ≡ in_state "invalid" a
unfolding severity_score
score_invalid a =
    ground (arith, other_text a.status "invalid" "error", other_text a.status "invalid" "expired")

score_limited : (a : AccountRow) → (severity_score a == 30) ≡ is_limited a
unfolding severity_score
score_limited a = ground arith

score_off : (a : AccountRow) → (severity_score a == 10) ≡ is_off a
unfolding severity_score
score_off a = ground (
  arith,
  other_text a.status "disabled" "error",
  other_text a.status "disabled" "expired",
  other_text a.status "disabled" "invalid",
)

score_well : (a : AccountRow) → (severity_score a == 0) ≡ is_well a
unfolding severity_score
score_well a = ground arith

-- The page lists the accounts in error, then the expired ones, the invalid ones, the others that are
-- limited, the disabled ones and the rest, each group in the order of the server.
pub sorted_accounts-keep_if :
    (accounts : List AccountRow)
    → sorted_accounts accounts
      ≡ keep_if (in_state "error") accounts
        ++ (keep_if (in_state "expired") accounts
            ++ (keep_if (in_state "invalid") accounts
                ++ (keep_if is_limited accounts
                    ++ (keep_if is_off accounts ++ keep_if is_well accounts))))
unfolding sorted_accounts in_groups
sorted_accounts-keep_if accounts =
    sort_by-in_groups severity_score scores accounts descends
      (All_of (λ a. Among (severity_score a) scores) accounts severity_score-Among)
    ∙ rw
        (
          keep_if_ext _ (in_state "error") accounts score_error,
          keep_if_ext _ (in_state "expired") accounts score_expired,
          keep_if_ext _ (in_state "invalid") accounts score_invalid,
          keep_if_ext _ is_limited accounts score_limited,
          keep_if_ext _ is_off accounts score_off,
          keep_if_ext _ is_well accounts score_well,
          append_nil (keep_if is_well accounts),
        )
        refl

abbrev pub IsOpen : ℕ → RateEntry → Type 0
IsOpen now e = now < e.until

-- Every window that the server has for an account, over or not: its own, and one of each model.
abbrev pub all_windows : AccountRow → List RateEntry
all_windows a =
    record {
      kind = account_kind;
      model = none;
      started = or_value 0 a.rate_limited_started;
      until = a.rate_limited_until;
    }
    ∷ map
        (λ row. record {
          kind = model_kind;
          model = some row.0;
          started = or_value 0 (Dict.get row.0 (or_none a.rate_limited_model_starts));
          until = row.1;
        })
        (or_none a.rate_limited_models)

abbrev pub is_open : ℕ → RateEntry → Bool
is_open now e = ltb now e.until

model_entries-keep_if :
    (now : ℕ) (starts windows : Dict ℕ)
    → model_entries now starts windows
      ≡ keep_if (is_open now) (
          map
            (λ row. record {
              kind = model_kind;
              model = some row.0;
              started = or_value 0 (Dict.get row.0 starts);
              until = row.1;
            })
            windows)
unfolding model_entries
model_entries-keep_if now starts [] = refl
model_entries-keep_if now starts ((model, until) ∷ rest) =
    rw (model_entries-keep_if now starts rest) refl

account_entries-keep_if :
    (now until : ℕ) (started : Option ℕ) (rest : List RateEntry)
    → account_entries now (some until) started ++ keep_if (is_open now) rest
      ≡ keep_if (is_open now) (
          record { kind = account_kind; model = none; started = or_value 0 started; until = until }
          ∷ rest)
account_entries-keep_if now until started rest = elim (Bool-cases (ltb now until)) [
  | inl e ↦ let positive : ltb 0 until ≡ true = ground arith in rw (e, positive) refl
  | inr e ↦ ground arith
]

open_windows-keep_if :
    (now : ℕ) (a : AccountRow) → open_windows now a ≡ keep_if (is_open now) (all_windows a)
unfolding open_windows
open_windows-keep_if now a =
    rw
      (model_entries-keep_if now (or_none a.rate_limited_model_starts)
        (or_none a.rate_limited_models))
      (account_entries-keep_if now a.rate_limited_until a.rate_limited_started _)

kept-IsOpen : (now : ℕ) (xs : List RateEntry) → All (IsOpen now) (keep_if (is_open now) xs)
kept-IsOpen now [] = tt
kept-IsOpen now (x ∷ xs) = ground (arith, kept-IsOpen now xs)

open_windows-IsOpen : (now : ℕ) (a : AccountRow) → All (IsOpen now) (open_windows now a)
open_windows-IsOpen now a = rw (open_windows-keep_if now a) (kept-IsOpen now (all_windows a))

-- The windows listed for an account are those of its own and of its models that are not over, each as
-- often as the server sent it, the next to end first.
pub rate_entries-IsOpen :
    (now : ℕ) (a : AccountRow)
    → All (IsOpen now) (rate_entries now a)
      × (IsSortedBy (lower_key (λ e. e.until)) (rate_entries now a)
          × ((p : RateEntry → Bool)
              → length (keep_if p (rate_entries now a))
                ≡ length (keep_if p (keep_if (is_open now) (all_windows a)))))
unfolding rate_entries
rate_entries-IsOpen now a = (
  sort_by-All (lower_key (λ e. e.until)) (IsOpen now) (open_windows now a)
      (open_windows-IsOpen now a),
  (
    sort_by-IsSortedBy (lower_key (λ e. e.until)) (lower_asym (λ e. e.until))
        (lower_trans (λ e. e.until)) (open_windows now a),
    λ p.
        count_sort_by (lower_key (λ e. e.until)) p (open_windows now a)
        ∙ ap (λ xs. length (keep_if p xs)) (open_windows-keep_if now a),
  ),
)
