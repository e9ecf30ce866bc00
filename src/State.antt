-- ===== src/State.antt =====
-- The persistent state of the agent, of pkg/state.
pub mod Manager
