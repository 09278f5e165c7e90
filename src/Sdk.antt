-- ===== src/Sdk.antt =====
-- The Rust SDK (rust/ajar-connector): events, their builder, the seal and the consume side.
pub mod Event
pub mod Rfc3339
pub mod Namespace
pub mod Keys
pub mod Builder
pub mod Seal
pub mod Consumer
