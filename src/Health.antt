-- ===== src/Health.antt =====
-- The health of an owner: codex_monitor/owner_health.py.
pub mod Retry
pub mod Verified
pub mod Cache
pub mod Fresh
pub mod Words
pub mod Answers
pub mod Peer
pub mod Pages
pub mod Probe
pub mod Ready
pub mod Bounds
pub mod Samples
