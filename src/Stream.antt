-- ===== src/Stream.antt =====
-- The streaming part of bindings/python/par_runtime/runtime.py: the events, their decoding, and the
-- iterator `_StreamReader`.
pub mod Event
pub mod Encoding
pub mod Reader
pub mod Iterate
mod Tests
