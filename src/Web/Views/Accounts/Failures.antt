-- ===== src/Web/Views/Accounts/Failures.antt =====
-- What a rejected call leaves of web/src/views/Accounts.vue.
use windsurf_to_api_go.Prelude.{◌≡◌, refl, String, Option, [], ◌∷◌}
use windsurf_to_api_go.Web.Request.{toast}
use windsurf_to_api_go.Web.Api.Call.{Reply, rejected}
use windsurf_to_api_go.Web.Api.Types.Accounts.{AccountsResponse, AccountTier}
use windsurf_to_api_go.Web.Views.Page.{Run, Step, toasts}
use windsurf_to_api_go.Web.Views.Accounts.{
  AccountsPage, on_remove, on_probe_one, on_refresh_credits, on_refresh_tok, on_set_tier,
  on_toggle_disabled, on_rate_limit,
}

-- The page is as it was, the one call was made, and its error is shown.
abbrev pub IsShown : AccountsPage → String → Run AccountsPage → Type 0
IsShown s text r = (r.0 ≡ s) × ((call : Step) × (r.1 ≡ call ∷ toasts text ∷ []))

-- Whichever call of a row is rejected, the page stays as it was, nothing else is called, not even the
-- list, and the message of the error is shown, or the text of the action where it has none.
pub rejected-IsShown :
    (encode : String → String) (id email status : String) (tier : AccountTier)
    (message : Option String) (loaded : Reply AccountsResponse) (s : AccountsPage)
    → IsShown s (toast message "删除失败") (on_remove encode id (rejected message) loaded s)
      × (IsShown s (toast message "探测失败") (on_probe_one encode id (rejected message) loaded s)
          × (IsShown s
                (toast message "刷新失败")
                (on_refresh_credits encode id (rejected message) loaded s)
              × (IsShown s
                    (toast message "刷新失败")
                    (on_refresh_tok encode id (rejected message) loaded s)
                  × (IsShown s
                        (toast message "更新失败")
                        (on_set_tier encode id tier (rejected message) loaded s)
                      × (IsShown s
                            (toast message "操作失败")
                            (on_toggle_disabled encode id status (rejected message) loaded s)
                          × IsShown s
                              (toast message "查询失败")
                              (on_rate_limit encode id email (rejected message) s))))))
unfolding on_remove on_probe_one on_refresh_credits on_refresh_tok on_set_tier on_toggle_disabled
    on_rate_limit
rejected-IsShown encode id email status tier message loaded s = (
  (refl, (_, refl)),
  (
    (refl, (_, refl)),
    (
      (refl, (_, refl)),
      ((refl, (_, refl)), ((refl, (_, refl)), ((refl, (_, refl)), (refl, (_, refl))))),
    ),
  ),
)
