-- ===== src/WorldModel.antt =====
-- tapestry-os/subsys/csm/world_model.c: each element's model of the others.
pub mod Types
pub mod Ops
pub mod Invariant
pub mod Cycle
pub mod Kept
pub mod Init
pub mod Reach
pub mod Receive
pub mod Counts
pub mod Queries
pub mod Samples
mod Tests
