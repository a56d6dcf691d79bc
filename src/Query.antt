-- ===== src/Query.antt =====
-- query/: how a request is divided among the corpora.
pub mod Ranges
pub mod FcsQl
pub mod Basic
