-- ===== src/Supernode/State.antt =====
-- The state of pkg/supernode (edge.go, community.go, supernode.go, stats.go), and what one call
-- takes from outside the program. Go's `*Edge` is a reference into `heap`, since the maps of the
-- supernode and of a community share their edges; a `*Community` is its key in `communities`.
pub mod Messages
use n2n_go.Base.{ℕ, ◌+◌, ◌%◌, ◌^◌, Bool, Option, List}
use n2n_go.Base.Exec.{Exec}
use n2n_go.Base.Keys.{Text, text_eq, nat_eq}
use n2n_go.Base.Maps.{Map}
use n2n_go.Errors.{Error}
use n2n_go.Net.{IpAddr}
use n2n_go.P2p.Peer.{PeerP2PInfos, P2PFullState}
use n2n_go.Protocol.Mac.{HardwareAddr}
use n2n_go.Supernode.State.Messages

pub record EdgeCachedInfos : Type 0 where
  pub mac_addr : Text
  pub desc : Text
  pub community : Text
  pub is_registered : Bool
  pub updated_at : ℕ
  pub virtual_ip : Text

pub record Edge : Type 0 where
  pub desc : Text
  pub public_ip : IpAddr
  pub public_port : ℕ
  pub community : Text
  pub virtual_ip : Text
  pub vnet_mask_len : ℕ
  pub last_heartbeat : ℕ
  pub last_sequence : ℕ
  pub mac_addr : Text
  pub machine_id : Text
  -- the WSS connection's id, empty over UDP
  pub wss_conn_id : Text

-- `netip.Prefix`
pub record Prefix : Type 0 where
  pub addr : ℕ
  pub bits : ℕ

abbrev pub Ref : Type 0
Ref = ℕ

pub record Community : Type 0 where
  pub name : Text
  pub subnet : Prefix
  pub mask_len : ℕ
  pub p2p_infos : Map Text PeerP2PInfos
  pub edges : Map Text Ref

-- `SupernodeStats`, the counters that the code changes.
pub record Stats : Type 0 where
  pub packets_processed : ℕ
  pub packets_forwarded : ℕ
  pub packets_dropped : ℕ
  pub edges_registered : ℕ
  pub edges_unregistered : ℕ
  pub heartbeats_received : ℕ
  pub last_cleanup_time : ℕ
  pub last_cleanup_edges : ℕ

-- A write that succeeded.
pub data Sent : Type 0 where
  to_udp : Text → IpAddr → ℕ → Sent
  to_wss : Text → Text → Sent

pub record NetworkAllocator : Type 0 where
  pub base_network : ℕ
  pub mask_len : ℕ

pub record Supernode : Type 0 where
  pub net_allocator : NetworkAllocator
  pub communities : Map ℕ Community
  pub edges_by_mac : Map Text Ref
  pub edges_by_socket : Map Text Ref
  pub edge_cached_infos : Map Text EdgeCachedInfos
  pub heap : Ref → Edge
  pub next_ref : Ref
  pub enable_v_fuze : Bool
  pub pem : Text
  -- the ids of the open WSS connections
  pub wss_connections : Map Text (Unit {0})
  pub stats : Stats
  -- all that was written, oldest first
  pub sent : List Sent

-- `atomic.Uint64.Add`
abbrev pub add_u64 : ℕ → ℕ → ℕ
add_u64 n k = (n + k) % 2 ^ 64

-- What one call takes from the clock, the network, the address pools, the cryptography and the
-- protobuf codec. It is an argument of each call, so it may answer otherwise at the next.
pub record Env : Type 0 where
  -- `time.Now`, in nanoseconds
  pub now : ℕ
  -- `(*net.UDPAddr).String` and `(*net.TCPAddr).String`
  pub socket_string : IpAddr → ℕ → Text
  -- `fmt.Sprintf("%s:%d", ip, port)`
  pub pub_socket_string : IpAddr → ℕ → Text
  -- `netip.Addr.String`
  pub vip_string : Text → Text
  pub parse_ip : Text → IpAddr
  pub parse_mac : Text → HardwareAddr
  pub sha256 : Text → Text
  -- `crypto.DecryptSequence` with the supernode's key
  pub decrypt : Text → Option Text
  -- the community's `ippool.IPPool.RequestIP`, by its network
  pub request_ip : Prefix → Text → Option Text
  -- whether `ippool` has, or can make, the pool of a network
  pub pool_ready : Prefix → Bool
  -- `netip.ParseAddr` of the printed address
  pub parse_addr : Text → Option Text
  -- `ippool.IPPool.GetAllLeases`
  pub all_leases : Prefix → Map Text Messages.IppoolLease
  -- whether a write reports no error
  pub udp_write : Text → IpAddr → ℕ → Bool
  pub wss_write : Text → Text → Bool
  pub unmarshal_register : Text → Option Messages.RegisterRequest
  pub unmarshal_unregister : Text → Option Messages.UnregisterRequest
  pub unmarshal_heartbeat : Text → Option Messages.HeartbeatPulse
  pub unmarshal_peer_list_request : Text → Option Messages.PeerListRequest
  pub unmarshal_p2p_infos : Text → Option PeerP2PInfos
  pub unmarshal_p2p_full_state : Text → Option P2PFullState
  pub unmarshal_leases_infos : Text → Option Messages.LeasesInfos
  pub unmarshal_sn_public_secret : Text → Option Messages.SnPublicSecret
  pub marshal : Messages.Reply → Option Text

abbrev pub Sn : Type 0 → Type 0
Sn A = Exec Supernode Error A
