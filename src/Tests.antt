-- ===== src/Tests.antt =====
-- Runs of the theorems on concrete data.
mod Data
mod Pool
mod Admin
mod Conversations
mod Access
mod Codec
mod Storage
mod Ladder
mod Dashboard
mod Pages
mod Forms
mod Guard
mod Settings
mod Counters
