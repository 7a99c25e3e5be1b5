-- ===== src/Session.antt =====
-- The sessions of codex_monitor/session.py, over one connection to the app server of an owner.
pub mod Rpc
pub mod Errors
pub mod Target
pub mod Inspect
pub mod Handoff
pub mod Scan
pub mod Submission
pub mod Samples
