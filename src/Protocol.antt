-- ===== src/Protocol.antt =====
-- windows/native/common/netpilot_protocol.h and netpilot_protocol.cpp: the wire protocol.
pub mod Types
pub mod Frame
pub mod Buffer
pub mod Trip
pub mod Fields
pub mod Routes
pub mod AppRules
pub mod Status
pub mod Reconcile
pub mod Validate
mod Tests
