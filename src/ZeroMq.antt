-- ===== src/ZeroMq.antt =====
-- src/zeromq: the socket, the control server on it, its statistics and its monitor.
pub mod Socket
pub mod Commands
pub mod Stats
pub mod Server
pub mod Monitor
