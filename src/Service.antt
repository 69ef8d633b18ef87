-- ===== src/Service.antt =====
-- windows/native/service/service_runtime.h and service_runtime.cpp: the service's state, the
-- validation of application rules, and the handling of a request.
pub mod Host
pub mod Rules
pub mod State
pub mod Requests
pub mod Routing
pub mod Unchanged
pub mod Serve
pub mod Lifecycle
mod Tests
mod LifecycleTests
