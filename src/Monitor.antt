-- ===== src/Monitor.antt =====
-- codex_monitor/monitor.py: the durable event inbox.
pub mod State
pub mod Intake
pub mod Routes
pub mod Labels
pub mod Labelled
pub mod Dispatch
pub mod Managed
pub mod Machine
pub mod Cases
pub mod Rules
pub mod Frame
pub mod Steps
pub mod Present
pub mod Replay
pub mod Once
pub mod Budget
pub mod Order
pub mod Capacity
pub mod Traces
pub mod Routing
pub mod RouteTable
pub mod Retired
pub mod Samples
pub mod Dedup
pub mod Recalled
