-- ===== src/Utils.antt =====
-- include/utils and src/utils.
pub mod Hasher
pub mod Tracer
pub mod InputParser
pub mod ConfigParser
pub mod FileHelpers
pub mod FileMonitor
