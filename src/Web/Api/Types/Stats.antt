-- ===== src/Web/Api/Types/Stats.antt =====
-- The types of web/src/api/types.ts for the statistics.
use windsurf_to_api_go.Prelude.{ℕ, String, Option, List}
use windsurf_to_api_go.Prelude.Dict.{Dict}

pub record StatsHourBucket : Type 0 where
  pub hour : String
  pub requests : ℕ
  pub errors : ℕ

pub record StatsModelCounts : Type 0 where
  pub requests : ℕ
  pub success : ℕ
  pub errors : ℕ
  pub total_ms : ℕ
  pub avg_ms : ℕ
  pub p50_ms : ℕ
  pub p95_ms : ℕ
  pub first_at : Option ℕ
  pub first_ms : Option ℕ
  pub last_at : Option ℕ
  pub last_ms : Option ℕ

pub record StatsAccountCounts : Type 0 where
  pub requests : ℕ
  pub success : ℕ
  pub errors : ℕ

pub record StatsPayload : Type 0 where
  pub started_at : ℕ
  pub total_requests : ℕ
  pub success_count : ℕ
  pub error_count : ℕ
  pub model_counts : Dict StatsModelCounts
  pub account_counts : Dict StatsAccountCounts
  pub hourly_buckets : List StatsHourBucket
