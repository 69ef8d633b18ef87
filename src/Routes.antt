-- ===== src/Routes.antt =====
-- windows/native/service/route_manager.h and route_manager.cpp.
pub mod Row
pub mod Net
pub mod Entry
pub mod Inventory
pub mod Load
pub mod Reconcile
mod Tests
