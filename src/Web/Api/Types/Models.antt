-- ===== src/Web/Api/Types/Models.antt =====
-- The types of web/src/api/types.ts for the models.
use windsurf_to_api_go.Prelude.{ℕ, String, Option, List}

abbrev pub ModelAccessMode : Type 0
ModelAccessMode = String

pub record ModelInfo : Type 0 where
  pub id : String
  pub name : String
  pub provider : String

pub record CatalogModel : Type 0 where
  pub id : String
  pub name : String
  pub display : String
  pub score : ℕ

pub record CatalogGroup : Type 0 where
  pub name : String
  pub count : ℕ
  pub top_score : ℕ
  pub models : List CatalogModel

pub record CatalogResponse : Type 0 where
  pub groups : List CatalogGroup

-- The list may come as `null`, which the view makes an empty one.
pub record ModelAccessAnswer : Type 0 where
  pub mode : ModelAccessMode
  pub list : Option (List String)

pub record ModelAccessConfig : Type 0 where
  pub mode : ModelAccessMode
  pub list : List String
