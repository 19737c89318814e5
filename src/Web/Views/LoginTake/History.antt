-- ===== src/Web/Views/LoginTake/History.antt =====
-- The history of logins, web/src/views/LoginTake.vue: what a new visit of the page finds.
use windsurf_to_api_go.Prelude.{◌≡◌, refl, ap, ◌∙◌, List, [], ◌∷◌, take}
use windsurf_to_api_go.Prelude.Lists.{last_of, last_of_short, length-take, take-take_longer}
use windsurf_to_api_go.Web.Views.LoginTake.{
  HistoryRow, LoginPage, rows, load_history, save_history, record_history,
}

-- The logins that end at a page, one after the other, and the rows they leave, the newest first.
unfoldable pub record_all : List HistoryRow → LoginPage → LoginPage
unfolding record_history
record_all [] s = s
record_all (r ∷ rs) s = record_all rs (record_history r s)

abbrev pub newest_first : List HistoryRow → List HistoryRow → List HistoryRow
newest_first [] before = before
newest_first (r ∷ rs) before = newest_first rs (r ∷ before)

-- The rows of the page, and the entry of the storage, as they follow from those before.
abbrev IsHistory : List HistoryRow → LoginPage → Type 0
IsHistory all s = (s.history ≡ take 50 all) × (s.storage ≡ rows (last_of 50 s.history))

record_history-IsHistory :
    (r : HistoryRow) (all : List HistoryRow) (s : LoginPage)
    → s.history ≡ take 50 all
    → IsHistory (r ∷ all) (record_history r s)
unfolding record_history save_history
record_history-IsHistory r all s h =
    (ap (λ xs. take 50 (r ∷ xs)) h ∙ ap (λ xs. r ∷ xs) (take-take_longer 49 all), refl)

record_all-IsHistory :
    (rs all : List HistoryRow) (s : LoginPage)
    → IsHistory all s
    → IsHistory (newest_first rs all) (record_all rs s)
unfolding record_all
record_all-IsHistory [] all s h = h
record_all-IsHistory (r ∷ rs) all s h =
    record_all-IsHistory rs (r ∷ all) (record_history r s) (record_history-IsHistory r all s h.0)

reload_lem :
    (all : List HistoryRow) (s fresh : LoginPage)
    → IsHistory all s
    → (load_history (record fresh { storage = s.storage })).history ≡ s.history
unfolding load_history
reload_lem all s fresh h = rw (h.1) (last_of_short 50 (s.history) (rw (h.0) (length-take 50 all)))

-- Whatever logins follow each other, the page shows the newest fifty of them and of what it had, and a
-- new visit of the page reads the same rows back from the local storage.
pub record_all-load_history :
    (r : HistoryRow) (rs : List HistoryRow) (s fresh : LoginPage)
    → ((record_all (r ∷ rs) s).history ≡ take 50 (newest_first (r ∷ rs) s.history))
      × ((load_history (record fresh { storage = (record_all (r ∷ rs) s).storage })).history
          ≡ (record_all (r ∷ rs) s).history)
unfolding record_all record_history save_history
record_all-load_history r rs s fresh =
    let h : IsHistory (newest_first rs (r ∷ s.history)) (record_all rs (record_history r s)) =
      record_all-IsHistory rs (r ∷ s.history) (record_history r s) (refl, refl) in
    (h.0, reload_lem (newest_first rs (r ∷ s.history)) (record_all rs (record_history r s)) fresh h)
