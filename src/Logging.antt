-- ===== src/Logging.antt =====
-- src/logging and include/logging, and what the program uses of spdlog.
pub mod Level
pub mod Loki
pub mod Sentry
