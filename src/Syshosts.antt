-- ===== src/Syshosts.antt =====
-- pkg/syshosts: the lines of the hosts file (hostsfiles.go, extents.go). `net.ParseIP` and the reading of the file
-- are parameters.
pub mod Words
pub mod Lookup
pub mod Change
pub mod Tidy
pub mod Laws
pub mod Added
pub mod Stored
pub mod Sort
pub mod Combine
pub mod Cleaned
