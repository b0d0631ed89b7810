-- ===== src/Supernode.antt =====
-- pkg/supernode: the meeting point that registers edges and relays their packets.
pub mod State
pub mod Network
pub mod Wire
pub mod Community
pub mod Views
pub mod Registration
pub mod Forward
pub mod Handlers
pub mod Process
pub mod Cleanup
