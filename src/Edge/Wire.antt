-- ===== src/Edge/Wire.antt =====
-- pkg/edge/wire.go: where an edge's packets go, and their headers.
pub mod Sends
pub mod Headers
pub mod Packets
use n2n_go.Base.{ℕ, ◌+◌, ◌%◌, ◌^◌, not, none, some, [], ◌∷◌, ◌++◌, nat_beq, if◌then◌else◌}
use n2n_go.Base.Exec.{or_fail, and_then, Result, err, ok}
use n2n_go.Base.Keys.{Text, text_eq, nat_eq}
use n2n_go.Base.Maps.{get}
use n2n_go.Edge.State.{
  EdgeClient, written, closed, UdpAddr, EdgeMessage, Ed, EdgeEnv, EdgeSent, edge_packet_type,
  over_wss, IoWrite, failed, over_udp,
}
use n2n_go.Errors.{Error}
use n2n_go.P2p.Registry.{parse_udp_addr}
use n2n_go.P2p.Status.{Peer, p2p_available}
use n2n_go.Protocol.Datagram.{pack}
use n2n_go.Protocol.Fuze.{v_fuze_header_bytes}
use n2n_go.Protocol.Hash.{hash_community}
use n2n_go.Protocol.Header.{Id6, copy_dest, copy_id, version_v, ProtoVHeader}
use n2n_go.Protocol.Mac.{mac_string, is_nil, HardwareAddr}
use n2n_go.Supernode.State.{add_u64}
use n2n_go.Tuntap.Frame.{source}

-- `UDPWriteStrategy`
pub data Strategy : Type 0 where
  enforce_supernode best_effort enforce_p2p : Strategy

-- The socket that `UDPAddrWithStrategy` takes for a peer that it found.
peer_socket : EdgeEnv → EdgeClient → Strategy → Peer → UdpAddr
peer_socket env e best_effort p =
    if not (nat_beq p.p2p_status p2p_available)
    then e.supernode_addr
    else parse_udp_addr env.resolver p.infos.pub_socket
peer_socket env e enforce_p2p p = parse_udp_addr env.resolver p.infos.pub_socket
peer_socket env e enforce_supernode p = e.supernode_addr

-- Without a peer, only the supernode is left.
no_peer : EdgeClient → Strategy → Result Error UdpAddr
no_peer e best_effort = ok e.supernode_addr
no_peer e enforce_supernode = ok e.supernode_addr
no_peer e enforce_p2p = err Error.no_peer_addr

-- The address for a destination, if there is one.
towards : EdgeEnv → EdgeClient → Strategy → HardwareAddr → Result Error UdpAddr
unfolding peer_socket no_peer
towards env e strategy dst =
    if is_nil dst then no_peer e strategy else elim (get (mac_string dst) e.peers.peers) [
      | none ↦ no_peer e strategy
      | some ref ↦ ok (peer_socket env e strategy (e.peers.heap ref))
    ]

-- `UDPAddrWithStrategy`
unfoldable pub udp_addr_with_strategy :
    EdgeEnv → EdgeClient → HardwareAddr → Strategy → Result Error UdpAddr
unfolding towards
udp_addr_with_strategy env e dst strategy =
    if e.has_wss then ok e.supernode_addr else elim strategy [
      | enforce_supernode ↦ ok e.supernode_addr
      | best_effort ↦ towards env e best_effort dst
      | enforce_p2p ↦ towards env e enforce_p2p dst
    ]

abbrev pub next_seq : EdgeClient → EdgeClient
next_seq e = record e { seq = (e.seq + 1) % 2 ^ 32 }

unfoldable pub header_of : EdgeEnv → ℕ → EdgeClient → Id6 → Id6 → ProtoVHeader
header_of env kind e source dest = record {
  version = version_v;
  ttl = 64;
  packet_type = kind;
  flags = 0;
  sequence = e.seq % 2 ^ 16;
  community_id = hash_community e.community;
  source_id = source;
  dest_id = dest;
  timestamp = env.now_unix % 2 ^ 32;
  checksum = 0;
}

-- `EdgeHeader`: the sequence number goes up, and addresses of fewer than six bytes panic.
unfoldable pub edge_header : EdgeEnv → ℕ → HardwareAddr → Ed ProtoVHeader
unfolding header_of
edge_header env kind dst e =
    and_then (copy_id e.mac_addr, next_seq e)
      λ source.
        λ t. and_then (copy_dest dst, t) λ dest. λ u. (ok (header_of env kind u source dest), u)

abbrev pub emit_edge : EdgeSent → EdgeClient → EdgeClient
emit_edge x e = record e { sent = e.sent ++ x ∷ [] }

-- What a write leaves behind.
sent_as : IoWrite → EdgeSent → Ed (Unit {0})
sent_as written x e = (ok tt, emit_edge x e)
sent_as failed x e = (err Error.send_failed, e)
sent_as closed x e = (err Error.conn_closed, e)

-- The write to a UDP socket; a nil address is an error.
to_socket : EdgeEnv → Text → UdpAddr → Ed (Unit {0})
unfolding sent_as
to_socket env packet none e = (err Error.send_failed, e)
to_socket env packet (some (ip, port)) e =
    sent_as (env.udp_write packet ip port) (over_udp packet ip port) e

-- The end that `WritePacket`, `SendStruct` and `SendVFuze` share.
unfoldable pub transmit : EdgeEnv → Text → UdpAddr → Ed (Unit {0})
unfolding to_socket sent_as
transmit env packet socket e =
    if e.has_wss
    then sent_as (env.wss_write packet) (over_wss packet) e
    else if not e.has_conn
    then (err Error.no_transport, e)
    else to_socket env packet socket e

abbrev pub count_sent_packet : EdgeClient → EdgeClient
count_sent_packet e = record e { packets_sent = add_u64 e.packets_sent 1 }

-- `WritePacket`
unfoldable pub write_edge_packet : EdgeEnv → ℕ → HardwareAddr → Text → Strategy → Ed (Unit {0})
write_edge_packet env kind dst payload strategy e =
    and_then (udp_addr_with_strategy env e dst strategy, e)
      λ socket. λ t.
        and_then (edge_header env kind dst t)
          λ header. λ u. transmit env (pack header payload) socket (count_sent_packet u)

-- `SendStruct`, which counts no packet
unfoldable pub send_edge_struct : EdgeEnv → EdgeMessage → HardwareAddr → Strategy → Ed (Unit {0})
send_edge_struct env m dst strategy e =
    and_then (udp_addr_with_strategy env e dst strategy, e)
      λ socket. λ t. and_then (edge_header env (edge_packet_type m) dst t) λ header. λ u.
        and_then (or_fail Error.encode_failed (env.marshal m), u)
          λ payload. transmit env (pack header payload) socket

-- `SendVFuze`
unfoldable pub send_v_fuze : EdgeEnv → HardwareAddr → Text → Strategy → Ed (Unit {0})
send_v_fuze env dst payload strategy e =
    and_then (udp_addr_with_strategy env e dst strategy, e)
      λ socket. λ t.
        and_then (v_fuze_header_bytes dst, t)
          λ header. λ u. transmit env (header ++ payload) socket (count_sent_packet u)
