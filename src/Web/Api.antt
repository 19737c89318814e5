-- ===== src/Web/Api.antt =====
-- The dashboard's calls of the server, web/src/api.
pub mod Types
pub mod Call
pub mod Calls
pub mod LogStream
pub mod Json
