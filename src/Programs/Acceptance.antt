-- ===== src/Programs/Acceptance.antt =====
-- scripts/release-acceptance-test.py: it installs a wheel in a fresh environment and tries it at three levels.
pub mod Machine
pub mod Text
pub mod Config
pub mod Versions
pub mod Matching
pub mod Normal
pub mod Main
pub mod Verdict
pub mod Life
