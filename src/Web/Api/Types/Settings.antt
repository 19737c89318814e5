-- ===== src/Web/Api/Types/Settings.antt =====
-- The types of web/src/api/types.ts for the experimental flags, the identity prompts and the update of the server.
use windsurf_to_api_go.Prelude.{ℕ, String, Bool, Option, List}
use windsurf_to_api_go.Prelude.Dict.{Dict}

pub record ExperimentalFlags : Type 0 where
  pub cascade_conversation_reuse : Bool
  pub model_identity_prompt : Bool
  pub preflight_rate_limit : Option Bool
  pub others : Dict Bool

pub record ConversationPoolSnapshot : Type 0 where
  pub size : ℕ
  pub hits : Option ℕ
  pub misses : Option ℕ

pub record ExperimentalResponse : Type 0 where
  pub flags : ExperimentalFlags
  pub conversation_pool : ConversationPoolSnapshot

abbrev pub IdentityPromptMap : Type 0
IdentityPromptMap = Dict String

pub record IdentityPromptsResponse : Type 0 where
  pub prompts : IdentityPromptMap
  pub defaults : IdentityPromptMap

pub record SelfUpdateStatus : Type 0 where
  pub ok : Bool
  pub behind : Option Bool
  pub commit : Option String
  pub remote_commit : Option String
  pub branch : Option String
  pub local_message : Option String
  pub remote_message : Option String
  pub error : Option String

pub record SelfUpdateResult : Type 0 where
  pub ok : Bool
  pub changed : Option Bool
  pub dirty : Option Bool
  pub dirty_files : Option (List String)
  pub pull_output : Option String
  pub before : Option String
  pub after : Option String
  pub error : Option String
