-- ===== src/Handler.antt =====
-- stream_handler/: the LS-1000 parser and the JSON normalizer.
pub mod Event
pub mod Ls1000
pub mod Normalizer
