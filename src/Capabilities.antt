-- ===== src/Capabilities.antt =====
-- dccex/capabilities: the catalogue of optional station features, and the discovery state machine.
pub mod Catalog
pub mod Discovery
