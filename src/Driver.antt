-- ===== src/Driver.antt =====
-- windows/native/driver/netpilot_wfp.cpp: the kernel driver that redirects connections to the
-- service's proxies, with the headers driver_control.h, redirect_context.h and wfp_guids.h of
-- windows/native/common. The answers of the kernel's functions are inputs of the models.
pub mod Classify
pub mod Control
mod Tests
