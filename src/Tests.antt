-- ===== src/Tests.antt =====
-- Concrete inputs, and each property at one of them.
pub mod Data
pub mod Rules
pub mod Commands
pub mod Outbox
pub mod Recovery
pub mod Runs
pub mod Routing
pub mod Broker
pub mod Dispatch
pub mod Decisions
