-- ===== src/Application.antt =====
-- src/hibiki/application/service.py: the command handlers of the Core, as functions on the database.
-- A row that a handler holds as an object is read again from the database where it is used, since
-- the session hands out one object per row. JSON columns and audit payloads are left out.
pub mod Base
pub mod Occupancy
pub mod Stops
pub mod Control
pub mod Effects
pub mod Proposals
pub mod Outbox
pub mod Sending
pub mod External
pub mod Recovery
pub mod Reconcile
pub mod Runs
pub mod Routing
pub mod Dispatch
pub mod Usage
pub mod Decisions
