-- ===== src/Handler.antt =====
-- handler/: what a client's request goes through.
pub mod Writing
pub mod View
pub mod Backlink
pub mod Params
pub mod V20
pub mod V12
pub mod Endpoint
