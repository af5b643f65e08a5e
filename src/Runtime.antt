-- ===== src/Runtime.antt =====
-- tapestry-os/subsys/runtime: the cycle that drives the world model and the coordination layer.
pub mod Power
pub mod Cycle
pub mod Policy
pub mod Schedule
mod Tests
