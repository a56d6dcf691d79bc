-- ===== src/Corpus.antt =====
-- corpus/conf.go: the configuration of the corpora.
pub mod Layers
pub mod Setup
pub mod Resources
pub mod CommonAttrs
pub mod CommonLayers
pub mod Corpora
