-- ===== src/Runner.antt =====
-- windows/runner: the parts of the user interface's plugin that are the program's own.
pub mod Network
pub mod Base64
pub mod Inspector
pub mod Plugin
mod Tests
mod PluginTests
