-- ===== src/Scr.antt =====
-- tapestry-os/subsys/scr/scr.c: quorum, abort signals and leader election.
pub mod Types
pub mod Tick
pub mod Abort
pub mod Election
pub mod Leader
mod Tests
