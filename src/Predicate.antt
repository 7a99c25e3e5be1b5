-- ===== src/Predicate.antt =====
-- codex_monitor/predicates.py: the JSON predicates of managed file monitors.
pub mod Pointer
pub mod Equality
pub mod Condition
pub mod Complement
pub mod Samples
pub mod RoundTrip
