-- ===== src/P2p.antt =====
-- pkg/p2p: what edges know of their peers.
pub mod Peer
pub mod Status
pub mod Registry
pub mod Viz
