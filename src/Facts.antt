-- ===== src/Facts.antt =====
-- tapestry-os/subsys/csm/facts.c: the replicated table of shared facts.
pub mod Types
pub mod Order
pub mod Table
pub mod Trickle
pub mod Merge
pub mod Publish
pub mod Digest
pub mod Refusal
pub mod Outcomes
pub mod Timer
pub mod Eviction
pub mod Replicas
pub mod Convergence
pub mod Local
pub mod Clearing
pub mod Preservation
pub mod Room
pub mod Upkeep
pub mod Reach
pub mod Admission
pub mod Invariant
pub mod Keys
pub mod Least
pub mod Query
mod Tests
mod TimerTests
