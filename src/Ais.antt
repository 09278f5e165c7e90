-- ===== src/Ais.antt =====
-- AIS over NMEA 0183 of rust/connectors/ais-nmea/src/ais.rs: the children follow the message from its
-- armor bits to the event.
pub mod Bits
pub mod Cache
pub mod Fields
pub mod Decode
pub mod Sentence
pub mod Report
