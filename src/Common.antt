-- ===== src/Common.antt =====
-- The connector runtime's library (rust/connectors/common).
pub mod Spool
pub mod Identity
pub mod Stream
pub mod Marking
pub mod Ontology
pub mod Runtime
