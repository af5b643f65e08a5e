-- ===== src/Choreo.antt =====
-- tapestry-os/subsys/choreo/choreo.c: the lifecycle of goals, and which directive steers the element.
pub mod Remote
pub mod Steering
pub mod Goals
pub mod Steps
pub mod State
pub mod Lifecycle
pub mod Scripts
pub mod Events
pub mod Departures
pub mod Selection
pub mod Cycle
pub mod Sound
pub mod Kept
pub mod Loading
pub mod TrackLoading
pub mod Migration
pub mod Ticking
pub mod Reach
pub mod Quorum
pub mod Isolation
pub mod Edges
pub mod Unmatched
pub mod Preemption
pub mod Submission
pub mod Membership
pub mod Pulses
mod Tests
pub mod Samples
mod CycleTests
