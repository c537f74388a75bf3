-- ===== src/Log.antt =====
-- Logging: include/logging and log.
pub mod FixedBuffer
pub mod LogStream
pub mod AsyncLogging
pub mod LogFile
pub mod Logger
pub mod Pipeline
mod Tests
