-- ===== src/Handler/V12.antt =====
-- handler/v12/: version 1.2 of the protocol.
pub mod Args
pub mod Scan
pub mod Dispatch
pub mod Explain
pub mod Search
pub mod Records
