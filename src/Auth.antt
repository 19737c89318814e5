-- ===== src/Auth.antt =====
-- The account pool, internal/auth/pool.go: its rows, and a module for each group of its methods.
pub mod Account
pub mod Limits
pub mod Select
pub mod Signals
pub mod Drought
pub mod Admin
pub mod Views
pub mod Eligibility
pub mod Preference
pub mod Acquire
pub mod Budget
pub mod Quarantine
pub mod AllLimited
pub mod Breaker
pub mod Registry
