-- ===== src/Tools.antt =====
-- The worker's tools (src/hibiki/tools): path validation and the tool broker.
pub mod Paths
pub mod Broker
