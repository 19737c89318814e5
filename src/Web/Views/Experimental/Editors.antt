-- ===== src/Web/Views/Experimental/Editors.antt =====
-- The editors of the prompts of web/src/views/Experimental.vue after a load.
use windsurf_to_api_go.Prelude.{
  ◌≡◌, refl, ◌∙◌, String, Bool, true, false, Option, some, [], ◌∷◌, same, same_iff, Bool-cases, inl,
  inr, if◌then◌else◌,
}
use windsurf_to_api_go.Prelude.Dict.{Dict, UniqueDict, get-put}
use windsurf_to_api_go.Prelude.Dict
use windsurf_to_api_go.Web.Request.{or_empty}
use windsurf_to_api_go.Web.Api.Call.{resolved}
use windsurf_to_api_go.Web.Api.Types.Settings.{
  ExperimentalResponse, IdentityPromptMap, IdentityPromptsResponse,
}
use windsurf_to_api_go.Web.Views.Page.{is_some}
use windsurf_to_api_go.Web.Views.Experimental.{ExperimentalPage, seed, load}

either_way : (b : Bool) (o : Option String) → (if b then o else o) ≡ o
either_way true o = refl
either_way false o = refl

seed_lem :
    (k : String) (defaults prompts : IdentityPromptMap) (editing : Dict String)
    → Dict.get k (seed defaults prompts editing) ≡ (
        if is_some (Dict.get k defaults)
        then some (or_empty (Dict.get k prompts))
        else Dict.get k editing)
unfolding seed Dict.get
seed_lem k [] prompts editing = refl
seed_lem k ((j, d) ∷ rest) prompts editing =
    seed_lem k rest prompts (Dict.put j (or_empty (Dict.get j prompts)) editing)
    ∙ elim (Bool-cases (same j k)) [
      | inl e ↦
          rw (get-put, e, (same_iff j k).0 e)
            (either_way (is_some (Dict.get k rest)) (some (or_empty (Dict.get k prompts))))
      | inr e ↦ rw (get-put, e) refl
    ]

-- After both answers came, each provider that has a default has an editor with its prompt in force, or an
-- empty one; the editors of other providers are as they were.
pub load-editing :
    (k : String) (exp : ExperimentalResponse) (id : IdentityPromptsResponse) (s : ExperimentalPage)
    → Dict.get k (load (resolved exp) (resolved id) s).0.editing ≡ (
        if is_some (Dict.get k id.defaults)
        then some (or_empty (Dict.get k id.prompts))
        else Dict.get k s.editing)
unfolding load
load-editing k exp id s = seed_lem k (id.defaults) (id.prompts) (s.editing)
