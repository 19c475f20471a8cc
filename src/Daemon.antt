-- ===== src/Daemon.antt =====
-- `DaemonRuntime` of src/DaemonRuntime.cpp and the arguments of src/main.cpp. Processes, signals
-- and files are not part of the program: how they answer is a parameter.
pub mod Stop
pub mod PidFile
pub mod Options
mod Tests
