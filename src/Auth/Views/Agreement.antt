-- ===== src/Auth/Views/Agreement.antt =====
-- The dashboard's view of an account's windows agrees with the test that the selection makes.
use windsurf_to_api_go.Prelude.{
  ℕ, String, Bool, true, false, ◌||◌, Option, none, some, [], ◌∷◌, Bool-cases, inl, inr, arith, ◌≡◌,
  refl, ◌∙◌, ap, ltb, same, same_iff, if◌then◌else◌,
}
use windsurf_to_api_go.Prelude.Dict
use windsurf_to_api_go.Prelude.Dict.{Dict, UniqueDict}
use windsurf_to_api_go.Auth.Account.{Account}
use windsurf_to_api_go.Auth.Limits.{is_rate_limited, deadline_after}
use windsurf_to_api_go.Auth.Views.{view_models, put_start, build_rl_view}
use mathlib.Core.Path.{subst}
use windsurf_to_api_go.Models.{is_present}

abbrev shown : ℕ → Option ℕ → Option ℕ → Option ℕ
shown now none old = old
shown now (some t) old = if ltb now t then some t else old

shown-put :
    (now : ℕ) (j k : String) (t : ℕ) (m models : Dict ℕ)
    → ltb now t ≡ true
    → Dict.get k m ≡ none
    → shown now (Dict.get j m) (Dict.get j (Dict.put k t models))
      ≡ shown now (if same k j then some t else Dict.get j m) (Dict.get j models)
shown-put now j k t m models h u = rw Dict.get-put (elim (Bool-cases (same k j)) [
  | inl e ↦
      let gone : Dict.get j m ≡ none = subst (λ x. Dict.get x m ≡ none) ((same_iff k j).0 e) u in
      rw (e, gone, h) refl
  | inr e ↦ rw e refl
])

shown-skip :
    (now : ℕ) (j k : String) (t : ℕ) (m models : Dict ℕ)
    → ltb now t ≡ false
    → Dict.get k m ≡ none
    → shown now (Dict.get j m) (Dict.get j models)
      ≡ shown now (if same k j then some t else Dict.get j m) (Dict.get j models)
shown-skip now j k t m models h u = elim (Bool-cases (same k j)) [
  | inl e ↦
      let gone : Dict.get j m ≡ none = subst (λ x. Dict.get x m ≡ none) ((same_iff k j).0 e) u in
      rw (e, gone, h) refl
  | inr e ↦ rw e refl
]

view_models-get :
    (now : ℕ) (j : String) (started : Option (Dict ℕ)) (m models starts : Dict ℕ)
    → UniqueDict m
    → Dict.get j (view_models now started m (models, starts)).0
      ≡ shown now (Dict.get j m) (Dict.get j models)
unfolding view_models Dict.get
view_models-get now j started [] models starts u = refl
view_models-get now j started ((k, t) ∷ m) models starts u =
    let added : Dict ℕ × Dict ℕ = (Dict.put k t models, put_start k started starts) in
    let step = λ (b : Bool).
      Dict.get j (view_models now started m (if b then added else (models, starts))).0 in
    elim (Bool-cases (ltb now t)) [
      | inl h ↦
          ap step h
          ∙ view_models-get now j started m (Dict.put k t models) (put_start k started starts) u.1
          ∙ shown-put now j k t m models h u.0
      | inr h ↦
          ap step h
          ∙ view_models-get now j started m models starts u.1
          ∙ shown-skip now j k t m models h u.0
    ]

-- A model's window is open in the view, or the account's is, exactly if the account is rate limited for
-- the model, for a model that is not empty and an account with one deadline for each model at most.
pub build_rl_view-agrees :
    (a : Account) (model_key : String) (now : ℕ)
    → UniqueDict a.model_rate_limits
    → same model_key "" ≡ false
    → is_rate_limited a model_key now ≡ (
        ltb 0 (build_rl_view a now).account_until
        || is_present (Dict.get model_key (build_rl_view a now).models))
unfolding build_rl_view is_rate_limited deadline_after Dict.get
build_rl_view-agrees a model_key now u e =
    ground (arith, view_models-get now model_key a.model_rate_started a.model_rate_limits [] [] u)
