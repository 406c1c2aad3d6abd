-- ===== src/Examples.antt =====
-- Uses of the theorems at concrete inputs, a file to each part of the program.
pub mod Data
pub mod Telnet
pub mod Server
pub mod ZeroMq
pub mod Utils
pub mod Logging
pub mod Process
pub mod Connection
pub mod Start
pub mod Watch
pub mod Pieces
