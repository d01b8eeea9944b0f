-- ===== src/Recovery.antt =====
-- src/recovery and include/recovery: the log's records, the log file, and restart recovery.
pub mod LogRecord
pub mod LogManager
pub mod RecoveryManager
pub mod Tests
