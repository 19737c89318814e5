-- ===== src/Web/Api/Types/Logs.antt =====
-- The types of web/src/api/types.ts for the logs.
use windsurf_to_api_go.Prelude.{ℕ, String, Option, List}

abbrev pub LogLevel : Type 0
LogLevel = String

pub record LogEntry : Type 0 where
  pub ts : ℕ
  pub level : LogLevel
  pub msg : String

pub record LogsListResponse : Type 0 where
  pub logs : Option (List LogEntry)
