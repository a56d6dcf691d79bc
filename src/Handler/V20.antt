-- ===== src/Handler/V20.antt =====
-- handler/v20/: version 2.0 of the protocol.
pub mod Args
pub mod Responses
pub mod Dispatch
pub mod Scan
pub mod Request
pub mod DataViews
pub mod Records
pub mod Explain
pub mod Search
