-- ===== src/Sink.antt =====
-- The verifying sink (rust/connectors/sink).
pub mod Store
pub mod Run
