-- ===== src/Wire.antt =====
-- The frames on the wire: tapestry-os/include/tapestry/wire.h, and gossip.c's authentication.
pub mod Bytes
pub mod Frames
pub mod Layout
pub mod RoundTrip
pub mod Auth
pub mod Gates
