-- ===== src/Tests.antt =====
-- Runs on concrete inputs, and the properties at inputs where their hypotheses hold.
mod Instances
pub mod Sdk
pub mod Sink
pub mod Common
pub mod Ais
pub mod Klv
pub mod Runtime
pub mod Mavlink
pub mod Asterix
pub mod Targets
