-- ===== src/Web/Api/Types.antt =====
-- The types of the dashboard API, web/src/api/types.ts. A field with `?`, or with `null` among its
-- values, is an option, and so is one that the views read as absent. Counts, sizes and time stamps are
-- whole numbers; percentages, loads and costs are fractions.
pub mod Overview
pub mod Accounts
pub mod Models
pub mod Proxy
pub mod Stats
pub mod Logs
pub mod Settings
pub mod Login
