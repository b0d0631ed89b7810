-- ===== src/Tests/Fixtures.antt =====
-- A supernode, its surroundings and its traffic, small enough to evaluate.
use n2n_go.Base.{
  ℕ, ◌<◌, ◌≡◌, refl, Bool, true, ◌&&◌, none, some, [], ◌∷◌, arith, ltb, nat_beq, if◌then◌else◌,
  replicate,
}
use n2n_go.Base.Bytes.{IsBytes, byte_at}
use n2n_go.Base.Keys.{Text}
use n2n_go.Net.{udp}
use n2n_go.Protocol.Datagram.{pack}
use n2n_go.Protocol.Datagram.RoundTrip.{IsHeader}
use n2n_go.Protocol.Header.{version_v, id_bytes, Id6, ProtoVHeader}
use n2n_go.Protocol.Mac.{mac_string, HardwareAddr}
use n2n_go.Protocol.Message.{RawMessage}
use n2n_go.Supernode.State.{Supernode, Community, Edge, Env}
use n2n_go.Supernode.Wire.{is_empty}

abbrev pub sample_env : Env
sample_env = record {
  now = 1000;
  socket_string = λ ip port. 117 ∷ port ∷ ip;
  pub_socket_string = λ ip port. port ∷ ip;
  vip_string = λ a. a;
  parse_ip = λ t. t;
  parse_mac = λ t. t;
  sha256 = λ t. replicate 32 7;
  decrypt = λ t. if is_empty t then none else some t;
  request_ip = λ subnet mac. some (10 ∷ 0 ∷ 0 ∷ 5 ∷ []);
  pool_ready = λ subnet. true;
  parse_addr = λ t. some t;
  all_leases = λ subnet. [];
  udp_write = λ packet ip port. true;
  wss_write = λ packet conn. true;
  unmarshal_register = λ t. none;
  unmarshal_unregister = λ t. none;
  unmarshal_heartbeat = λ t. none;
  unmarshal_peer_list_request = λ t. none;
  unmarshal_p2p_infos = λ t. none;
  unmarshal_p2p_full_state = λ t. none;
  unmarshal_leases_infos = λ t. none;
  unmarshal_sn_public_secret = λ t. none;
  marshal = λ m. some (1 ∷ 2 ∷ []);
}

abbrev pub empty_edge : Edge
empty_edge = record {
  desc = [];
  public_ip = [];
  public_port = 0;
  community = [];
  virtual_ip = [];
  vnet_mask_len = 0;
  last_heartbeat = 0;
  last_sequence = 0;
  mac_addr = [];
  machine_id = [];
  wss_conn_id = [];
}

abbrev pub empty_supernode : Supernode
empty_supernode = record {
  net_allocator = record { base_network = 0x0a000000; mask_len = 24 };
  communities = [];
  edges_by_mac = [];
  edges_by_socket = [];
  edge_cached_infos = [];
  heap = λ r. empty_edge;
  next_ref = 0;
  enable_v_fuze = true;
  pem = [];
  wss_connections = [];
  stats = record {
    packets_processed = 0;
    packets_forwarded = 0;
    packets_dropped = 0;
    edges_registered = 0;
    edges_unregistered = 0;
    heartbeats_received = 0;
    last_cleanup_time = 0;
    last_cleanup_edges = 0;
  };
  sent = [];
}

-- "lan"
abbrev pub lan : Text
lan = 108 ∷ 97 ∷ 110 ∷ []

abbrev pub machine_id : Text
machine_id = 1 ∷ 2 ∷ 3 ∷ []

abbrev pub id_of : Text → Id6
id_of m = record {
  b0 = byte_at 0 m;
  b1 = byte_at 1 m;
  b2 = byte_at 2 m;
  b3 = byte_at 3 m;
  b4 = byte_at 4 m;
  b5 = byte_at 5 m;
}

-- The address that the machine id generates in "lan".
abbrev pub alice : HardwareAddr
alice = 222 ∷ 180 ∷ 211 ∷ 131 ∷ 186 ∷ 166 ∷ []

abbrev pub bob : HardwareAddr
bob = 2 ∷ 0 ∷ 0 ∷ 0 ∷ 0 ∷ 2 ∷ []

abbrev pub carol : HardwareAddr
carol = 2 ∷ 0 ∷ 0 ∷ 0 ∷ 0 ∷ 3 ∷ []

-- The hash of "lan".
abbrev pub lan_id : ℕ
lan_id = 1449164816

abbrev pub header_from : HardwareAddr → HardwareAddr → ℕ → ProtoVHeader
header_from src dst kind = record {
  version = version_v;
  ttl = 64;
  packet_type = kind;
  flags = 0;
  sequence = 7;
  community_id = lan_id;
  source_id = id_of src;
  dest_id = id_of dst;
  timestamp = 99;
  checksum = 0;
}

abbrev pub message_from : HardwareAddr → HardwareAddr → ℕ → RawMessage
message_from src dst kind = record {
  header = header_from src dst kind;
  payload = 5 ∷ [];
  from_addr = udp (192 ∷ 0 ∷ 2 ∷ 1 ∷ []) 7000;
  raw_packet = pack (header_from src dst kind) (5 ∷ []);
}

abbrev pub edge_of : HardwareAddr → ℕ → Edge
edge_of mac port = record empty_edge {
  community = lan;
  mac_addr = mac_string mac;
  machine_id = machine_id;
  public_ip = 192 ∷ 0 ∷ 2 ∷ 1 ∷ [];
  public_port = port;
}

abbrev pub lan_community : Community
lan_community = record {
  name = lan;
  subnet = record { addr = 0x0a000000; bits = 24 };
  mask_len = 24;
  p2p_infos = [];
  edges = (mac_string alice, 0) ∷ (mac_string bob, 1) ∷ [];
}

-- A supernode with alice and bob in one community.
abbrev pub two_edges : Supernode
two_edges = record empty_supernode {
  communities = (lan_id, lan_community) ∷ [];
  edges_by_mac = (mac_string alice, 0) ∷ (mac_string bob, 1) ∷ [];
  heap = λ r. if nat_beq r 0 then edge_of alice 7000 else edge_of bob 7001;
  next_ref = 2;
}

abbrev all_bytes : Text → Bool
all_bytes [] = true
all_bytes (b ∷ bs) = ltb b 256 && all_bytes bs

pub all_bytes_sound : (t : Text) → all_bytes t ≡ true → IsBytes t
all_bytes_sound [] h = tt
all_bytes_sound (b ∷ bs) h = (ground arith, all_bytes_sound bs (ground arith))

pub header_from-IsHeader :
    (src dst : HardwareAddr) (kind : ℕ)
    → kind < 256
    → IsBytes (id_bytes (id_of src))
    → IsBytes (id_bytes (id_of dst))
    → IsHeader (header_from src dst kind)
header_from-IsHeader src dst kind k s d = record {
  version = refl;
  ttl = omega arith;
  packet_type = k;
  flags = omega arith;
  sequence = omega arith;
  community_id = omega arith;
  source_id = s;
  dest_id = d;
  timestamp = omega arith;
  checksum = omega arith;
}
