-- ===== src/Search.antt =====
-- The search of one page over all corpora: query/rngcalc.go, result/rscrr.go and the handlers' use
-- of both.
pub mod Paging
