-- ===== src/Client.antt =====
-- windows/runner/service_client.h and service_client.cpp: the calls of the user interface's plugin
-- to the service.
pub mod Pipe
pub mod Call
pub mod Served
pub mod Requests
mod Tests
mod RequestTests
