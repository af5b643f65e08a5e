-- ===== src/Transport.antt =====
-- tapestry-os/subsys/transport/transport.c: how an element without an id gets one.
pub mod Negotiate
pub mod Ids
pub mod Peers
mod Tests
