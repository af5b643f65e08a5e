-- ===== src/Bse.antt =====
-- tapestry-os/subsys/bse/bse.c: the behaviour engine, which turns intents into directives.
pub mod Types
pub mod Participants
pub mod Anchors
pub mod Exchange
pub mod Slots
pub mod Assign
pub mod Intents
pub mod Achieve
pub mod Tick
pub mod Leaves
pub mod Kept
pub mod Stations
pub mod Landmarks
pub mod Patience
pub mod Served
pub mod Serving
pub mod Retargeting
pub mod Pursuit
pub mod Composition
mod Tests
