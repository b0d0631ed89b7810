-- ===== src/Protocol.antt =====
-- pkg/protocol: the wire format that edges and supernodes share.
pub mod Spec
pub mod Mac
pub mod Hash
pub mod Header
pub mod Datagram
pub mod Fuze
pub mod Message
