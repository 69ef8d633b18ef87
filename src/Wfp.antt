-- ===== src/Wfp.antt =====
-- windows/native/service/wfp_policy.h and wfp_policy.cpp: the filters of the Windows Filtering
-- Platform that send the selected applications to the driver.
pub mod AppId
pub mod Engine
pub mod Policy
mod Tests
mod PlanTests
