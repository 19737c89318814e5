-- ===== src/Web/Views.antt =====
-- The pages of the dashboard, web/src/views: the state of each, its handlers and what it shows.
pub mod Page
pub mod Accounts
pub mod Bans
pub mod Logs
pub mod Models
pub mod Experimental
pub mod Overview
pub mod Proxy
pub mod Stats
pub mod HostPort
pub mod LoginTake
