-- ===== src/Service/Host.antt =====
-- What the service calls of Windows and of its other parts: paths and files, the driver's device,
-- the relay engine and the reconnection of browsers.
use netpilot.Base.{ℕ, Bool, Option, List}
use netpilot.Base.Text.{Bytes}
use netpilot.Protocol.Types.{AppRuleSpec, RuleMetric, RestartedProcess}

pub record Host : Type 1 where
  pub World : Type 0
  -- std::filesystem::u8path of a text, with is_absolute and the text of its extension.
  pub is_absolute : Bytes → Bool
  pub extension : Bytes → Bytes
  -- Wide strings; `wide` is Wide of service_runtime.cpp and stands for the literals too.
  pub WideText : Type 0
  pub wide : Bytes → WideText
  pub file_name : WideText → WideText
  -- `_wcsicmp` answers 0.
  pub same_text : WideText → WideText → Bool
  -- weakly_canonical, `none` with an error code; is_regular_file; FwpmGetAppIdFromFileName0.
  pub canonical : WideText → World → Option WideText
  pub is_regular_file : WideText → World → Bool
  pub app_id_blob : WideText → World → Option Bytes
  -- DriverReady and TestModeEnabled.
  pub driver_ready : World → Bool
  pub test_mode : World → Bool
  -- BrowserReconnect::Reconnect: the destinations and the session give the processes and a warning.
  pub reconnect : List Bytes → ℕ → World → List RestartedProcess × Bytes × World
  -- RelayEngine: Configure, RestartFlows, running and Metrics.
  pub configure : List AppRuleSpec → World → World
  pub restart_flows : World → World
  pub running : World → Bool
  pub metrics : World → List RuleMetric
