-- ===== src/Web/Api/Types/Overview.antt =====
-- The types of web/src/api/types.ts for the overview.
use windsurf_to_api_go.Prelude.{ℕ, String, Bool, Option, List}
use windsurf_to_api_go.Prelude.Dict.{Dict}
use windsurf_to_api_go.Prelude.Numbers.{Fraction}
use windsurf_to_api_go.Web.Api.Types.Models.{ModelAccessMode}

pub record HealthInfo : Type 0 where
  pub status : String
  pub version : String
  pub commit : Option String
  pub commit_message : Option String
  pub commit_date : Option String
  pub branch : Option String
  pub uptime : Option ℕ

pub record AccountCounts : Type 0 where
  pub total : ℕ
  pub active : ℕ
  pub error : ℕ
  pub expired : Option ℕ
  pub invalid : Option ℕ

pub record LangServerInstance : Type 0 where
  pub key : String
  pub proxy : Option String
  pub running : Bool

pub record LangServerSnapshot : Type 0 where
  pub running : Bool
  pub port : ℕ
  pub instances : List LangServerInstance

pub record CacheSnapshot : Type 0 where
  pub size : ℕ
  pub max_size : ℕ
  pub hits : ℕ
  pub misses : ℕ
  pub hit_rate : String

pub record CpuUsage : Type 0 where
  pub percent : Fraction
  pub cores : ℕ

pub record MemoryUsage : Type 0 where
  pub total_bytes : ℕ
  pub used_bytes : ℕ
  pub available_bytes : ℕ
  pub percent : Fraction

pub record SwapUsage : Type 0 where
  pub total_bytes : ℕ
  pub used_bytes : ℕ
  pub percent : Fraction

pub record NetworkUsage : Type 0 where
  pub rx_bytes_per_sec : ℕ
  pub tx_bytes_per_sec : ℕ
  pub rx_bytes_total : ℕ
  pub tx_bytes_total : ℕ

pub record LoadAverage : Type 0 where
  pub min1 : Fraction
  pub min5 : Fraction
  pub min15 : Fraction

pub record SystemSnapshot : Type 0 where
  pub os : String
  pub cpu : CpuUsage
  pub memory : MemoryUsage
  pub swap : SwapUsage
  pub network : NetworkUsage
  pub load : LoadAverage

pub record TokenTotals : Type 0 where
  pub input_tokens : ℕ
  pub output_tokens : ℕ
  pub total_tokens : ℕ
  pub cost_usd : Fraction

pub record ModelAccessSummary : Type 0 where
  pub total : ℕ
  pub allowed : ℕ
  pub mode : ModelAccessMode

pub record OverviewPayload : Type 0 where
  pub uptime : ℕ
  pub started_at : ℕ
  pub accounts : AccountCounts
  pub authenticated : Bool
  pub lang_server : LangServerSnapshot
  pub total_requests : ℕ
  pub success_count : ℕ
  pub error_count : ℕ
  pub success_rate : String
  pub cache : CacheSnapshot
  pub system : SystemSnapshot
  pub tokens : TokenTotals
  pub upstream_status : Dict ℕ
  pub model_access : ModelAccessSummary
  pub version : String
