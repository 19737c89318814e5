-- ===== src/Web/Views/Experimental.antt =====
-- web/src/views/Experimental.vue: the flags, the pool of conversations and the identity prompts.
pub mod Editors
use Prim.Native.String.{◌++◌ as ◌<>◌}
use windsurf_to_api_go.Prelude.{
  ℕ, String, Bool, true, false, Option, none, some, List, [], ◌∷◌, ◌++◌, same, if◌then◌else◌,
}
use windsurf_to_api_go.Prelude.Dict.{Dict}
use windsurf_to_api_go.Prelude.Dict
use windsurf_to_api_go.Prelude.Numbers.{show}
use windsurf_to_api_go.Web.Request.{toast, or_empty}
use windsurf_to_api_go.Web.Api.Call.{Reply, resolved, rejected}
use windsurf_to_api_go.Web.Api.Calls.{
  get_experimental, patch_experimental, clear_conversation_pool, get_identity_prompts,
  put_identity_prompts, reset_identity_prompt, WithFlags, Cleared, WithPrompts,
}
use windsurf_to_api_go.Web.Api.Types.Settings.{
  ExperimentalFlags, ConversationPoolSnapshot, ExperimentalResponse, IdentityPromptMap,
  IdentityPromptsResponse,
}
use windsurf_to_api_go.Web.Views.Page.{Run, sent, succeeds, toasts, say, attempt, or_value}

pub record ExperimentalPage : Type 0 where
  pub loading : Bool
  pub flags : ExperimentalFlags
  pub pool : ConversationPoolSnapshot
  pub prompts : IdentityPromptMap
  pub defaults : IdentityPromptMap
  pub editing : Dict String
  pub saving_provider : Option String

-- `Object.assign`: what the answer has replaces what was there.
unfoldable pub put_all : Dict Bool → Dict Bool → Dict Bool
unfolding Dict.put
put_all [] m = m
put_all ((k, v) ∷ rest) m = put_all rest (Dict.put k v m)

abbrev or_old : Option Bool → Option Bool → Option Bool
or_old none old = old
or_old (some b) old = some b

unfoldable pub assign_flags : ExperimentalFlags → ExperimentalFlags → ExperimentalFlags
unfolding put_all
assign_flags old new = record {
  cascade_conversation_reuse = new.cascade_conversation_reuse;
  model_identity_prompt = new.model_identity_prompt;
  preflight_rate_limit = or_old new.preflight_rate_limit old.preflight_rate_limit;
  others = put_all new.others old.others;
}

-- The editors start with the prompts in force, for each provider that has a default.
unfoldable pub seed : IdentityPromptMap → IdentityPromptMap → Dict String → Dict String
unfolding Dict.get Dict.put
seed [] prompts editing = editing
seed ((k, d) ∷ rest) prompts editing =
    seed rest prompts (Dict.put k (or_empty (Dict.get k prompts)) editing)

abbrev loaded :
    Reply ExperimentalResponse
    → Reply IdentityPromptsResponse
    → ExperimentalPage
    → Run ExperimentalPage
loaded (resolved exp) (resolved id) s = (
  record s {
    flags = assign_flags s.flags exp.flags;
    pool = exp.conversation_pool;
    prompts = id.prompts;
    defaults = id.defaults;
    editing = seed id.defaults id.prompts s.editing;
  },
  [],
)
loaded (resolved exp) (rejected message) s = (s, toasts (toast message "加载失败") ∷ [])
loaded (rejected message) reply s = (s, toasts (toast message "加载失败") ∷ [])

unfoldable pub load :
    Reply ExperimentalResponse
    → Reply IdentityPromptsResponse
    → ExperimentalPage
    → Run ExperimentalPage
unfolding get_experimental get_identity_prompts assign_flags seed toast
load exp id s =
    let r = say (sent get_experimental) (say (sent get_identity_prompts) (loaded exp id s)) in
    (record (r.0) { loading = false }, r.1)

unfoldable pub on_toggle : String → Bool → Reply WithFlags → ExperimentalPage → Run ExperimentalPage
unfolding patch_experimental assign_flags
on_toggle key val reply s =
    attempt (patch_experimental ((key, val) ∷ [])) reply "更新失败"
      (λ r. (record s { flags = assign_flags s.flags r.flags }, succeeds "已更新" ∷ [])) s

unfoldable pub on_clear_pool : Reply Cleared → ExperimentalPage → Run ExperimentalPage
unfolding clear_conversation_pool show
on_clear_pool reply s =
    attempt clear_conversation_pool reply "操作失败"
      (λ r. (
        record s { pool = record { size = 0; hits = none; misses = none } },
        succeeds ("已清空 " <> show r.cleared <> " 条") ∷ [],
      ))
      s

-- A provider without an editor sends a body without a text.
abbrev edited : String → Dict String → Dict String
edited provider editing = elim (Dict.get provider editing) [
  | none ↦ []
  | some text ↦ (provider, text) ∷ []
]

unfoldable pub on_save_prompt : String → Reply WithPrompts → ExperimentalPage → Run ExperimentalPage
unfolding put_identity_prompts Dict.get
on_save_prompt provider reply s =
    let r =
      attempt (put_identity_prompts (edited provider s.editing)) reply "保存失败"
        (λ a. (record s { prompts = a.prompts }, succeeds "已保存" ∷ [])) s in
    (record (r.0) { saving_provider = none }, r.1)

unfoldable pub on_reset_prompt :
    (String → String) → String → Reply WithPrompts → ExperimentalPage → Run ExperimentalPage
unfolding reset_identity_prompt Dict.get Dict.put
on_reset_prompt encode provider reply s =
    attempt (reset_identity_prompt encode provider) reply "操作失败"
      (λ r. (
        record s {
          prompts = r.prompts;
          editing =
              Dict.put provider
                (or_value (or_empty (Dict.get provider s.defaults)) (Dict.get provider r.prompts))
                s.editing;
        },
        succeeds "已重置为默认" ∷ [],
      ))
      s
