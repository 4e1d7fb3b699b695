-- ===== src/Programs.antt =====
-- The repository's own programs in Python: the release test, and the example that uses the package.
pub mod Acceptance
pub mod Example
mod Tests
