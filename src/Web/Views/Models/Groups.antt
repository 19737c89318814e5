-- ===== src/Web/Views/Models/Groups.antt =====
-- The groups of web/src/views/Models.vue, as a filter by provider.
use windsurf_to_api_go.Prelude.{
  ◌≡◌, refl, ◌∙◌, sym, String, Bool, true, List, [], ◌∷◌, ◌++◌, keep_if, same, same_iff, Bool-cases,
  inl, inr,
}
use windsurf_to_api_go.Prelude.Dict.{Dict, get-put}
use windsurf_to_api_go.Prelude.Dict
use windsurf_to_api_go.Prelude.Lists.{append_nil, append_assoc}
use windsurf_to_api_go.Web.Api.Types.Models.{ModelInfo}
use windsurf_to_api_go.Web.Views.Page.{or_none}
use windsurf_to_api_go.Web.Views.Models.{ModelsPage, filtered, group_loop, grouped}

abbrev pub of_provider : String → ModelInfo → Bool
of_provider p m = same m.provider p

added :
    (k p : String) (m : ModelInfo) (rest : List ModelInfo) (g : Dict (List ModelInfo))
    → same k p ≡ true
    → or_none (Dict.get p (Dict.put k (or_none (Dict.get k g) ++ m ∷ []) g)) ++ rest
      ≡ or_none (Dict.get p g) ++ m ∷ rest
added k p m rest g e =
    rw (get-put, e, (same_iff k p).0 e) (append_assoc (or_none (Dict.get p g)) (m ∷ []) rest)

group_loop-keep_if :
    (p : String) (ms : List ModelInfo) (g : Dict (List ModelInfo))
    → or_none (Dict.get p (group_loop ms g)) ≡ or_none (Dict.get p g) ++ keep_if (of_provider p) ms
unfolding group_loop
group_loop-keep_if p [] g = sym (append_nil (or_none (Dict.get p g)))
group_loop-keep_if p (m ∷ ms) g =
    let next : Dict (List ModelInfo) =
      Dict.put m.provider (or_none (Dict.get m.provider g) ++ m ∷ []) g in
    group_loop-keep_if p ms next ∙ elim (Bool-cases (same m.provider p)) [
      | inl e ↦ rw e (added m.provider p m (keep_if (of_provider p) ms) g e)
      | inr e ↦ rw (get-put, e) refl
    ]

-- The group of each provider has the models of the filter with that provider, in their order; a provider
-- with none has no group or an empty one.
pub grouped-keep_if :
    (p : String) (s : ModelsPage)
    → or_none (Dict.get p (grouped s)) ≡ keep_if (of_provider p) (filtered s)
unfolding grouped Dict.get
grouped-keep_if p s = group_loop-keep_if p (filtered s) []
