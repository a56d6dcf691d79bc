-- ===== src/General.antt =====
-- general/: diagnostics and the part of a request that all versions share.
pub mod Errors
pub mod Request
