-- ===== src/Relay.antt =====
-- windows/native/service/relay_engine.h and relay_engine.cpp: the proxies to which the driver sends
-- the connections of the selected applications.
pub mod Winsock
pub mod Rules
pub mod Adapters
pub mod Connect
pub mod Shared
pub mod Query
pub mod Pump
pub mod Workers
pub mod Engine
pub mod Sessions
mod Tests
mod PumpTests
