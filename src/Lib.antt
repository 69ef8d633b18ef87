-- ===== src/Lib.antt =====
-- NetPilot for Windows: the native service and its kernel driver. Paths are from the repository's
-- root.
--
-- The user interface sends messages over a pipe to a service. The service keeps the routes of the
-- system and the filters of the Windows Filtering Platform as the user's rules ask; a filter
-- hands a connection of a selected application to the kernel driver, which redirects it to a
-- proxy of the service. The parts are modelled as follows.
--
-- - Protocol: windows/native/common/netpilot_protocol.h and .cpp. Types has the records; Buffer
--   has BufferWriter (a function that appends bytes) and BufferReader (the bytes and the offset,
--   with `none` for false); Routes, AppRules, Status and Reconcile have the Encode and Decode
--   functions; Frame has FrameHeader; Validate has IsValidRoute, whose answer is `none` or the
--   error text. Trip and Fields join round trips of fields into those of messages.
-- - Routes: windows/native/service/route_manager.h and .cpp. Net is what the code calls of
--   Windows, with the state file's contents handed over whole. Row has PopulateRow, where `fault`
--   is an exception of std::stoi or an undefined shift; Entry has Add, Remove and Inspect;
--   Inventory has Save and Cleanup, Load has Load and its regular expression; both streams are
--   in text mode, for which Std/TextMode has what Windows writes and reads. Reconcile has
--   Reconcile, on the inventory `managed_` and the state of the system.
-- - Wfp: windows/native/service/wfp_policy.h and .cpp. AppId has Hex and RuleContext, and
--   AppIdHex of service_runtime.cpp; Engine is what the code calls of the platform; Policy has
--   Initialize, EnsureProvider, Apply, AddExecutableFilter and Clear. Emptied and Planned compare
--   Apply with the list of filters that the rules ask for.
-- - Driver: windows/native/driver/netpilot_wfp.cpp and the headers driver_control.h,
--   redirect_context.h and wfp_guids.h of windows/native/common. Classify has
--   ClassifyConnectRedirectV4; Control has Dispatch, DeviceControl, Unload and DriverEntry.
-- - Service: windows/native/service/service_runtime.h and .cpp. Host is what the service calls of
--   Windows and of its parts that are not modelled; Rules has ValidateRules and the protocol's
--   IsValidAppRule; State has the fields and Status; Requests has Dispatch and
--   ReapplyForNetworkChange, which hold the lock and are functions of the state; Serve has
--   AuthorizeClient and ServeClient, with a record for what Windows knows of the client. An
--   exception of RouteManager and an enumeration that runs out of fuel are both `none` there.
--   Lifecycle has Initialize, Run, Stop and OnInterfaceChanged; a turn of Run is given what it
--   reads of `stopping_`.
-- - Relay: windows/native/service/relay_engine.h and .cpp. Winsock is what the code calls of
--   Windows; Rules has the tables of Configure, Adapters has FindSourceAddress, Connect has
--   ConnectOutbound, Query has QueryContext and the control messages of UdpReceiveLoop, Engine
--   has Listener, Start and Stop. Shared has the sections that hold the mutex. Workers is a step
--   relation of the two loops, the workers and Stop; a worker is the list of what it has still to
--   do, and Sessions has the way on that RelayTcp and RelayUdpSession choose at each call. Pump
--   has the pump of RelayTcp, by the number of turns; in the relation it is a series of steps.
--   The relation allows more than the code: a relay may end at any time, whether or not Stop shuts
--   its sockets down, and Stop may end without being notified. It is there for what never happens;
--   whether Stop ends is not stated.
-- - Browser: windows/native/service/browser_reconnect.cpp, over a record for the tables, COM and
--   the processes of Windows; Reconnect of the service's Host stands for it there.
-- - Client: windows/runner/service_client.cpp. Pipe has WriteAll and ReadAll, which
--   service_runtime.cpp has too; their loops run on fuel, for which the number of bytes is
--   enough. Steady says what a pipe that does not break does, Frames has the frame that both ends
--   write and read, Call has Call, and Requests has GetStatus, ReconcileRoutes, ApplyAppRouting
--   and GetDiagnostics. Served joins Call to ServeClient.
-- - Diagnostics: windows/native/service/diagnostics.cpp, the lines that are kept.
-- - Runner: windows/runner. Network has windows_network.cpp; Inspector has
--   windows_app_inspector.cpp, where a walk through a directory is a tree of what the iterator
--   meets, and Base64 its encoder, which Decoded compares with a decoder of its own; Plugin has
--   netpilot_plugin.cpp, with the values of the method channel and four of its methods, and Rules
--   the arguments that the user interface gives to one of them.
-- - Maintenance: windows/native/maintenance/maintenance_main.cpp, over the calls of Windows as
--   data: Maintenance has wmain and the functions that it calls.
-- - Std: the functions of the C++ library that the code uses on strings, sets and numbers,
--   std::sort and std::unique, and the regular expressions; Base: shared names, lists and text.
--
-- Integers are natural numbers, and a bound or a wrap is written out where a width matters; a
-- string is a list of bytes. The machine is little-endian with a 64-bit size_t. The printing of
-- an integer runs on 20 digits, which are enough for 64 bits. The enumeration of filters is a
-- loop without a bound of its own: it runs on fuel, and `apply` gives `none` when that runs out.
--
-- Not modelled: the packet loop of RelayUdpSession, the query of a command line, the other
-- methods and the events of the user interface's plugin, and the service host, which only calls
-- the service's Initialize, Run and Stop. Calls that free memory, and the texts of names that are
-- shown, have no part in the models.
pub mod Base
pub mod Std
pub mod Protocol
pub mod Routes
pub mod Driver
pub mod Diagnostics
pub mod Wfp
pub mod Service
pub mod Client
pub mod Relay
pub mod Browser
pub mod Runner
pub mod Maintenance
