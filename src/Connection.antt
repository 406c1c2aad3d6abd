-- ===== src/Connection.antt =====
-- src/connection and include/connection.
pub mod Curl
pub mod Http
pub mod RawSocket
