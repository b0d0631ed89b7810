-- ===== src/P2p/Peer.antt =====
-- The messages of pkg/p2p/proto/p2p.proto and the event types of pkg/p2p/peer.go.
use n2n_go.Base.{ℕ, Bool, Option, List}
use n2n_go.Base.Keys.{Text}
use n2n_go.Base.Maps.{Map}
use n2n_go.Protocol.Mac.{HardwareAddr}

pub record PeerInfo : Type 0 where
  pub virtual_ip : Text
  pub mac_addr : HardwareAddr
  pub pub_socket : Text
  pub community : Text
  pub desc : Text

pub record PeerInfoList : Type 0 where
  pub has_origin : Bool
  pub origin : Option PeerInfo
  pub peer_infos : List PeerInfo
  pub event_type : ℕ

abbrev pub event_list : ℕ
event_list = 1

abbrev pub event_register : ℕ
event_register = 2

abbrev pub event_unregister : ℕ
event_unregister = 3

pub record PeerP2PInfos : Type 0 where
  pub from_peer : Option PeerInfo
  pub to_peers : List PeerInfo

pub record PeerCachedInfo : Type 0 where
  pub desc : Text
  pub mac_addr : Text
  pub virtual_ip : Text
  pub community : Text
  pub last_update_ns : ℕ

pub record P2PFullState : Type 0 where
  pub community_name : Text
  pub is_request : Bool
  pub reachables : Map Text PeerP2PInfos
  pub unreachables : Map Text PeerCachedInfo
