-- ===== src/Edge/State.antt =====
-- The state of pkg/edge (client.go, api.go), and what one call takes from outside the program. The
-- client's peers are its registry, whose references stand for Go's `*Peer`.
use n2n_go.Base.{ℕ, Bool, Option, List}
use n2n_go.Base.Exec.{Exec}
use n2n_go.Base.Keys.{Text}
use n2n_go.Errors.{Error}
use n2n_go.Net.{IpAddr}
use n2n_go.P2p.Peer.{PeerInfoList, PeerP2PInfos, P2PFullState}
use n2n_go.P2p.Registry.{Resolver, PeerRegistry}
use n2n_go.Protocol.Mac.{HardwareAddr}
use n2n_go.Protocol.Spec.{
  type_leases_infos, type_unregister_request, type_ack, type_p2p_full_state, type_sn_public_secret,
  type_peer_list_request, type_ping, type_heartbeat, type_p2p_state_info, type_ice_candidate,
  type_register_request,
}
use n2n_go.Supernode.State.Messages.{
  SnPublicSecret, RegisterRequest, IceCandidate, UnregisterRequest, OnlineCheck, PeerListRequest,
  LeasesInfos, PeerToPing, TurnCredentials, HeartbeatPulse, RegisterResponse,
}
use n2n_go.Transform.{PayloadProcessor}

-- The messages that an edge sends, by the packet type that each has.
pub data EdgeMessage : Type 0 where
  sn_public_secret : SnPublicSecret → EdgeMessage
  register_request : RegisterRequest → EdgeMessage
  unregister_request : UnregisterRequest → EdgeMessage
  heartbeat_pulse : HeartbeatPulse → EdgeMessage
  peer_list_request : PeerListRequest → EdgeMessage
  p2p_state_info : PeerP2PInfos → EdgeMessage
  p2p_full_state : P2PFullState → EdgeMessage
  leases_infos : LeasesInfos → EdgeMessage
  peer_to_ping : PeerToPing → EdgeMessage
  ack : EdgeMessage
  ice_candidate : IceCandidate → EdgeMessage

abbrev pub edge_packet_type : EdgeMessage → ℕ
edge_packet_type (sn_public_secret m) = type_sn_public_secret
edge_packet_type (register_request m) = type_register_request
edge_packet_type (unregister_request m) = type_unregister_request
edge_packet_type (heartbeat_pulse m) = type_heartbeat
edge_packet_type (peer_list_request m) = type_peer_list_request
edge_packet_type (p2p_state_info m) = type_p2p_state_info
edge_packet_type (p2p_full_state m) = type_p2p_full_state
edge_packet_type (leases_infos m) = type_leases_infos
edge_packet_type (peer_to_ping m) = type_ping
edge_packet_type ack = type_ack
edge_packet_type (ice_candidate m) = type_ice_candidate

-- `*net.UDPAddr`, nil being `none`
abbrev pub UdpAddr : Type 0
UdpAddr = Option (IpAddr × ℕ)

-- A write that succeeded: to a UDP socket, or to the WSS transport.
pub data EdgeSent : Type 0 where
  over_udp : Text → IpAddr → ℕ → EdgeSent
  over_wss : Text → EdgeSent

-- `EdgeClientApi`, the fields that the code changes.
pub record EdgeClientApi : Type 0 where
  pub is_waiting_for_leases_infos : Bool
  pub last_leases_infos : Option LeasesInfos

pub record EdgeClient : Type 0 where
  pub peers : PeerRegistry
  pub id : Text
  pub community : Text
  pub supernode_addr : UdpAddr
  -- `Conn != nil` and `WSSTransport != nil`
  pub has_conn : Bool
  pub has_wss : Bool
  pub seq : ℕ
  pub enable_v_fuze : Bool
  pub virtual_ip : Text
  pub parsed_virtual_ip : IpAddr
  pub mac_addr : HardwareAddr
  pub machine_id : Text
  -- whether `unregisterOnce` has been used
  pub unregister_done : Bool
  pub packets_sent : ℕ
  pub packets_recv : ℕ
  -- `EAPI`, nil until `Run` has come to it
  pub eapi : Option EdgeClientApi
  pub sn_pub_key : Option Text
  pub registered : Bool
  pub is_waiting_for_sn_pub_key_update : Bool
  pub is_waiting_for_sn_retry_register_response : Bool
  pub payload_processor : PayloadProcessor
  -- all that was written to the network and to the TAP device, oldest first
  pub sent : List EdgeSent
  pub tap_frames : List Text
  -- the raw frames that announce the edge's address
  pub arp_frames : List Text

-- How a write to a socket or to the TAP device ends.
pub data IoWrite : Type 0 where
  written failed closed : IoWrite

-- What one call takes from the clock, the network, the TAP device, random bytes, the cryptography
-- and the protobuf codec.
pub record EdgeEnv : Type 0 where
  pub resolver : Resolver
  -- `time.Now().Unix()`
  pub now_unix : ℕ
  pub random : ℕ → ℕ → Option Text
  pub udp_write : Text → IpAddr → ℕ → IoWrite
  pub wss_write : Text → IoWrite
  pub tap_write : Text → IoWrite
  -- `TAP.IfUp`, the interface's own address, and its raw writes
  pub tap_up : Text → Bool
  pub tap_hardware_addr : HardwareAddr
  pub raw_write : Text → Bool
  -- `rsa.EncryptOAEP`, by the public key
  pub encrypt : Text → Text → Option Text
  pub parse_public_key : Text → Option Text
  -- `net.ParseMAC`
  pub parse_mac : Text → Option HardwareAddr
  -- `fmt.Sprintf` of a check id and of a network
  pub check_id : Text → Text → Text → Text → Text
  pub cidr_string : Text → ℕ → Text
  pub marshal : EdgeMessage → Option Text
  pub unmarshal_sn_public_secret : Text → Option SnPublicSecret
  pub unmarshal_register_response : Text → Option RegisterResponse
  pub unmarshal_unregister : Text → Option UnregisterRequest
  pub unmarshal_peer_info_list : Text → Option PeerInfoList
  pub unmarshal_leases_infos : Text → Option LeasesInfos
  pub unmarshal_p2p_infos : Text → Option PeerP2PInfos
  pub unmarshal_p2p_full_state : Text → Option P2PFullState
  pub unmarshal_ping : Text → Option PeerToPing
  pub unmarshal_online_check : Text → Option OnlineCheck
  pub unmarshal_ice_candidate : Text → Option IceCandidate
  pub unmarshal_turn_credentials : Text → Option TurnCredentials

abbrev pub Ed : Type 0 → Type 0
Ed A = Exec EdgeClient Error A
