-- ===== src/Edge.antt =====
-- pkg/edge: the client that carries a host's frames to its community.
pub mod State
pub mod Wire
pub mod Requests
pub mod Receive
pub mod Handlers
pub mod Peers
pub mod Listen
pub mod Tap
pub mod Pings
pub mod Setup
pub mod Api
