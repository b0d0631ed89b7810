-- ===== src/Supernode/State/Messages.antt =====
-- The protobuf messages of pkg/protocol/netstruct/proto that the supernode and the edges read and
-- write.
use n2n_go.Base.{ℕ, Bool, Option, List}
use n2n_go.Base.Keys.{Text, text_eq, nat_eq}
use n2n_go.Base.Maps.{Map}
use n2n_go.P2p.Peer.{P2PFullState, PeerInfoList}
use n2n_go.Protocol.Spec.{
  type_sn_public_secret, type_peer_info, type_register_response, type_p2p_full_state,
  type_leases_infos,
}

pub record RegisterRequest : Type 0 where
  pub edge_mac_addr : Text
  pub edge_desc : Text
  pub community_name : Text
  pub encrypted_machine_id : Text
  pub clear_machine_id : Text

pub record RegisterResponse : Type 0 where
  pub is_register_ok : Bool
  pub virtual_ip : Text
  pub masklen : ℕ

pub record HeartbeatPulse : Type 0 where
  pub edge_mac_addr : Text
  pub community_name : Text
  pub encrypted_machine_id : Text
  pub clear_machine_id : Text

pub record UnregisterRequest : Type 0 where
  pub edge_mac_addr : Text
  pub community_name : Text
  pub encrypted_machine_id : Text

pub record PeerListRequest : Type 0 where
  pub community_name : Text

pub record PeerToPing : Type 0 where
  pub check_id : Text
  pub is_pong : Bool

pub record OnlineCheck : Type 0 where
  pub is_reply : Bool
  pub cookie : Text

pub record IceCandidate : Type 0 where
  pub target_mac : Text
  pub candidate : Text
  pub sdp_mid : Text
  pub sdp_mline_index : ℕ

pub record TurnCredentials : Type 0 where
  pub username : Text
  pub password : Text
  pub ttl : ℕ
  pub uris : List Text

pub record SnPublicSecret : Type 0 where
  pub is_request : Bool
  pub pem_data : Text

pub record IppoolLease : Type 0 where
  pub ip : Text
  pub mac : Text
  pub expiry_ns : ℕ
  pub sticky : Bool
  pub last_renew_ns : ℕ

-- The time since the last update is -1 s where nothing is cached.
pub record LeaseEdgeInfos : Type 0 where
  pub edge_id : Text
  pub is_registered : Bool
  pub time_since_last_update_ns : Option ℕ
  pub virtual_ip : Text

pub record LeaseWithEdgeInfos : Type 0 where
  pub lease : IppoolLease
  pub lease_edge_infos : LeaseEdgeInfos

pub record LeasesInfos : Type 0 where
  pub is_request : Bool
  pub community_name : Text
  pub leases : Map Text LeaseWithEdgeInfos

-- A message that the supernode sends; its constructor determines the packet type.
pub data Reply : Type 0 where
  register_response : RegisterResponse → Reply
  peer_info_list : PeerInfoList → Reply
  leases_infos : LeasesInfos → Reply
  p2p_full_state : P2PFullState → Reply
  sn_public_secret : SnPublicSecret → Reply

-- `PacketType()` of pkg/protocol/netstruct/packet_type.go and pkg/p2p/packet_type.go
abbrev pub packet_type_of : Reply → ℕ
packet_type_of (register_response m) = type_register_response
packet_type_of (peer_info_list m) = type_peer_info
packet_type_of (leases_infos m) = type_leases_infos
packet_type_of (p2p_full_state m) = type_p2p_full_state
packet_type_of (sn_public_secret m) = type_sn_public_secret
