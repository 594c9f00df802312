-- ===== src/Config.antt =====
-- rust/src/config: the study's configuration documents.
pub mod Json
pub mod Errors
pub mod Spacing
pub mod Cases
pub mod Expansion
pub mod Manifest
