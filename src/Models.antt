-- ===== src/Models.antt =====
-- The tier table and the fallback chain of internal/models/catalog.go. The catalog, a package
-- variable there, is an argument of the functions that read it.
pub mod Fallback
pub mod DisplayName
use windsurf_to_api_go.Prelude.{
  ℕ, String, Bool, true, false, ◌||◌, Option, none, some, List, [], ◌∷◌, map, same, contains,
  if◌then◌else◌,
}
use windsurf_to_api_go.Prelude.Dict
use windsurf_to_api_go.Prelude.Dict.{Dict}

-- `Info`, a row of the catalog. `credit` is a float in the code that the model only carries along:
-- it is counted in hundredths here.
pub record Info : Type 0 where
  pub name : String
  pub provider : String
  pub enum : ℕ
  pub model_uid : String
  pub credit : ℕ

abbrev pub Catalog : Type 0
Catalog = Dict Info

abbrev pub free_tier : List String
free_tier = "gpt-4o-mini" ∷ "gemini-2.5-flash" ∷ []

abbrev pub is_present {ℓ} : {A : Type ℓ} → Option A → Bool
is_present none = false
is_present (some _) = true

unfoldable pub all_keys : Catalog → List String
all_keys = map (λ row. row.0)

unfoldable pub tier_models : Catalog → String → List String
unfolding all_keys
tier_models catalog tier =
    if same tier "pro" then all_keys catalog else if same tier "expired" then [] else free_tier

-- The `switch` of `IsTierAllowed`: an unknown tier is treated like "pro".
unfoldable pub is_tier_allowed : Catalog → String → String → Bool
is_tier_allowed catalog tier model_key =
    if same tier "pro" || (same tier "unknown" || same tier "")
    then is_present (Dict.get model_key catalog)
    else if same tier "expired"
    then false
    else contains model_key free_tier
