-- ===== src/Machine.antt =====
-- pkg/machine: the MAC address that an edge derives from its machine id and its community.
pub mod Mac
