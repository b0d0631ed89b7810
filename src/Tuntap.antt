-- ===== src/Tuntap.antt =====
-- pkg/tuntap: the Ethernet frames that an edge reads from its TAP device.
pub mod Frame
pub mod Arp
