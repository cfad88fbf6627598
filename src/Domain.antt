-- ===== src/Domain.antt =====
-- The domain package (src/hibiki/domain): values, transition tables, guards and plan validation.
pub mod Enums
pub mod Errors
pub mod Types
pub mod Transitions
pub mod Guards
pub mod Plan
pub mod Execution
pub mod Defaults
