-- ===== src/Log.antt =====
-- recovery/: log records and the log manager.
pub mod Memory
pub mod Records
pub mod RoundTrip
pub mod Manager
pub mod Appends
pub mod Compensation
pub mod Tests
