-- ===== src/Uart.antt =====
-- tapestry-os/subsys/transport/transceiver_uart.c: gossip frames on a wired serial bus.
pub mod Bus
pub mod Bounds
pub mod Parse
pub mod Delivery
mod Tests
