-- ===== src/State.antt =====
-- The core state machine of an HTTP connection (h11/_state.py): the tables and the
-- five machines.
pub mod Table
pub mod Defs
pub mod Fixpoint
pub mod Invariant
pub mod Reach
pub mod Phases
pub mod Switch
pub mod Cycle
