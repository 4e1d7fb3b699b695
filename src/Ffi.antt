-- ===== src/Ffi.antt =====
-- bindings/python/par_runtime/_ffi.py: the C functions that the binding calls, the memory that passes
-- between the two sides, and the search for the shared library.
pub mod Calls
pub mod Process
pub mod Strings
pub mod Handles
pub mod Memory
pub mod Locate
pub mod Load
mod Tests
