-- ===== src/Tests.antt =====
-- Concrete runs of the modelled code: each theorem with conditions, at an input that meets them.
mod Fixtures
mod Packets
mod Frames
mod Peers
mod Nodes
mod Edges
mod Hosts
