-- ===== src/Gossip.antt =====
-- tapestry-os/subsys/transport/gossip.c: the framing layer between the world model and the media.
pub mod Types
pub mod Gate
pub mod Relay
pub mod RelayOnce
pub mod Queue
pub mod Drain
pub mod Directive
pub mod FactFrames
pub mod Cycle
pub mod Discovery
pub mod Replay
pub mod Receive
pub mod FactExchange
pub mod Invariant
pub mod Forgery
mod Tests
