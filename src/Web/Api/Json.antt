-- ===== src/Web/Api/Json.antt =====
-- JSON values as the server writes and the dashboard reads them.
use windsurf_to_api_go.Prelude.{ℕ, String, Option, none, some, same, if◌then◌else◌}

mutual
  pub data Json : Type 0 where
    text : String → Json
    number : ℕ → Json
    null : Json
    object : Fields → Json

  pub data Fields : Type 0 where
    no_fields : Fields
    field : String → Json → Fields → Fields

-- A property of an object; names are told apart by case.
unfoldable pub property : String → Fields → Option Json
property name no_fields = none
property name (field key value rest) = if same key name then some value else property name rest

unfoldable pub text_at : String → Fields → Option String
unfolding property
text_at name fields = elim (property name fields) [
  | some (text s) ↦ some s
  | some (number n) ↦ none
  | some null ↦ none
  | some (object f) ↦ none
  | none ↦ none
]

unfoldable pub number_at : String → Fields → Option ℕ
unfolding property
number_at name fields = elim (property name fields) [
  | some (number n) ↦ some n
  | some (text s) ↦ none
  | some null ↦ none
  | some (object f) ↦ none
  | none ↦ none
]

unfoldable pub object_at : String → Fields → Option Fields
unfolding property
object_at name fields = elim (property name fields) [
  | some (object f) ↦ some f
  | some (text s) ↦ none
  | some (number n) ↦ none
  | some null ↦ none
  | none ↦ none
]
