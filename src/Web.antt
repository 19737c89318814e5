-- ===== src/Web.antt =====
-- The dashboard of web/src: its session, its model names and its texts.
pub mod ModelName
pub mod Request
pub mod Session
pub mod I18n
pub mod Api
pub mod Views
pub mod Layout
pub mod Marquee
pub mod FirebaseOAuth
