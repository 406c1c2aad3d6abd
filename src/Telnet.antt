-- ===== src/Telnet.antt =====
-- src/telnet/TelnetServer.cpp, include/telnet/TelnetServer.hpp and src/telnet/TelnetStats.cpp.
pub mod Nvt
pub mod Escapes
pub mod Backspace
pub mod Lines
pub mod Session
pub mod History
pub mod Tab
pub mod Commands
pub mod Update
pub mod Stats
pub mod Server
