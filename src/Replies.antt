-- ===== src/Replies.antt =====
-- codex_monitor/replies.py: replies to events, pulled and acknowledged by the event's source.
pub mod Outbox
pub mod Lasting
pub mod Repeat
pub mod Samples
