-- ===== src/Requests.antt =====
-- codex_monitor/requests.py: the life of a request, and the outbox of its notifications.
pub mod State
pub mod Updates
pub mod Lifecycle
pub mod Outbox
pub mod Queries
pub mod Machine
pub mod Cases
pub mod Reserved
pub mod Steps
pub mod Drained
pub mod Grown
pub mod Posted
pub mod Kept
pub mod Rows
pub mod Room
pub mod Lasting
pub mod Repeat
pub mod Resent
pub mod Recreate
pub mod Delivery
pub mod Paging
pub mod Pages
pub mod Samples
