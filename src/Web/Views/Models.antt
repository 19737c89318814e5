-- ===== src/Web/Views/Models.antt =====
-- web/src/views/Models.vue: the list of models, its filter and its groups, and the access list.
pub mod Endpoints
pub mod Toggle
pub mod Groups
use Prim.Native.String.{compare}
use windsurf_to_api_go.Prelude.{
  ℕ, String, Bool, true, false, not, ◌&&◌, ◌||◌, Option, none, some, List, [], ◌∷◌, ◌++◌, contains,
  keep_if, same, if◌then◌else◌,
}
use text.Mathlib.Text.{is_lt}
use windsurf_to_api_go.Prelude.Dict.{Dict}
use windsurf_to_api_go.Prelude.Dict
use windsurf_to_api_go.Prelude.Sorting.{sort_by}
use windsurf_to_api_go.Prelude.Texts.{trim, lower_text, includes, is_blank}
use windsurf_to_api_go.Web.Request.{toast}
use windsurf_to_api_go.Web.Api.Call.{Reply, resolved, rejected}
use windsurf_to_api_go.Web.Api.Calls.{
  list_models, get_model_access, put_model_access, add_model_access, remove_model_access, ModelList,
  WithConfig,
}
use windsurf_to_api_go.Web.Api.Types.Models.{
  ModelInfo, ModelAccessMode, ModelAccessAnswer, ModelAccessConfig,
}
use windsurf_to_api_go.Web.Views.Page.{Run, sent, succeeds, toasts, say, attempt, or_none}

pub record ModelsPage : Type 0 where
  pub models : List ModelInfo
  pub config : ModelAccessConfig
  pub loading : Bool
  pub search : String
  pub provider_filter : String

-- The set of the providers, each once, and then sorted.
unfoldable pub distinct : List ModelInfo → List String → List String
distinct [] seen = seen
distinct (m ∷ ms) seen =
    let fresh = distinct ms (seen ++ m.provider ∷ []) in
    let known = distinct ms seen in if contains m.provider seen then known else fresh

unfoldable pub providers : ModelsPage → List String
unfolding distinct sort_by
providers s = sort_by (λ p q. is_lt (compare p q)) (distinct s.models [])

-- `text` is the search, trimmed and in lower case.
unfoldable pub model_passes : String → String → ModelInfo → Bool
unfolding lower_text includes
model_passes provider text m =
    if not (is_blank provider) && not (same m.provider provider)
    then false
    else if is_blank text
    then true
    else includes (lower_text m.id) text || includes (lower_text m.name) text

unfoldable pub filtered : ModelsPage → List ModelInfo
unfolding model_passes lower_text trim
filtered s = keep_if (model_passes s.provider_filter (lower_text (trim s.search))) s.models

-- The models by provider, in their order.
unfoldable pub group_loop : List ModelInfo → Dict (List ModelInfo) → Dict (List ModelInfo)
unfolding Dict.get Dict.put
group_loop [] g = g
group_loop (m ∷ ms) g =
    group_loop ms (Dict.put m.provider (or_none (Dict.get m.provider g) ++ m ∷ []) g)

unfoldable pub grouped : ModelsPage → Dict (List ModelInfo)
unfolding filtered group_loop
grouped s = group_loop (filtered s) []

unfoldable pub normalise : ModelAccessAnswer → ModelAccessConfig
normalise cfg = record { mode = cfg.mode; list = or_none cfg.list }

-- Both calls are sent; the first error that comes is the one shown.
abbrev loaded : Reply ModelList → Reply ModelAccessAnswer → ModelsPage → Run ModelsPage
loaded (resolved ms) (resolved cfg) s =
    (record s { models = or_none ms.models; config = normalise cfg }, [])
loaded (resolved ms) (rejected message) s = (s, toasts (toast message "加载失败") ∷ [])
loaded (rejected message) reply s = (s, toasts (toast message "加载失败") ∷ [])

unfoldable pub load : Reply ModelList → Reply ModelAccessAnswer → ModelsPage → Run ModelsPage
unfolding list_models get_model_access normalise toast
load models access s =
    let r = say (sent list_models) (say (sent get_model_access) (loaded models access s)) in
    (record (r.0) { loading = false }, r.1)

unfoldable pub on_mode_change :
    ModelAccessMode → Reply (WithConfig ModelAccessAnswer) → ModelsPage → Run ModelsPage
unfolding put_model_access normalise
on_mode_change mode reply s =
    attempt (put_model_access (record { mode = mode; list = s.config.list })) reply "更新失败"
      (λ r. (record s { config = normalise r.config }, succeeds "已更新" ∷ [])) s

unfoldable pub handle_mode_change :
    String → Reply (WithConfig ModelAccessAnswer) → ModelsPage → Run ModelsPage
unfolding on_mode_change
handle_mode_change v reply s =
    if same v "all" || same v "allowlist" || same v "blocklist"
    then on_mode_change v reply s
    else (s, [])

unfoldable pub is_selected : String → ModelsPage → Bool
is_selected id s = contains id s.config.list

unfoldable pub toggle : String → Reply (WithConfig ModelAccessAnswer) → ModelsPage → Run ModelsPage
unfolding is_selected add_model_access remove_model_access normalise
toggle id reply s =
    attempt (if is_selected id s then remove_model_access id else add_model_access id) reply "操作失败"
      (λ r. (record s { config = normalise r.config }, [])) s

unfoldable pub mode_hint : ModelsPage → String
mode_hint s =
    if same s.config.mode "allowlist"
    then "只有白名单中的模型可被调用"
    else if same s.config.mode "blocklist"
    then "黑名单中的模型将被屏蔽"
    else "所有模型都可被调用"
