-- ===== src/Core.antt =====
-- packages/core/src/index.ts: the wire contracts and the session model, one module for each part.
pub mod Network
pub mod Paths
pub mod Json
pub mod Tests
pub mod Detail
pub mod Frame
pub mod Session
pub mod Mode
pub mod Device
pub mod Enrichment
pub mod Answer
