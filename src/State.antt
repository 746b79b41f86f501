-- ===== src/State.antt =====
-- internal/state: the runner registry.
pub mod Record
pub mod Validate
pub mod Sort
pub mod Registry
mod Examples
