-- ===== src/Supernode/Wire.antt =====
-- pkg/supernode/wire.go: packets that are forwarded, broadcast or made by the supernode.
pub mod Quiet
pub mod Writes
pub mod Broadcast
pub mod Answers
use n2n_go.Base.{
  ℕ, ◌+◌, ◌/◌, ◌%◌, ◌^◌, Bool, true, false, not, ◌&&◌, Option, none, some, List, [], ◌∷◌, ◌++◌, map,
  ltb, nat_beq, if◌then◌else◌, is_some,
}
use n2n_go.Base.Exec.{and_then, ok, Result, err, or_fail, ◌>>=◌}
use n2n_go.Base.Keys.{◌==◌, Text, text_eq, nat_eq}
use n2n_go.Base.Maps.{values, get}
use n2n_go.Errors.{Error}
use n2n_go.Net.{nil_addr, tcp, Addr, wss, IpAddr, udp}
use n2n_go.Protocol.Datagram.{pack, flag_packet_from_supernode}
use n2n_go.Protocol.Hash.{hash_community}
use n2n_go.Protocol.Header.{copy_dest, copy_id, ProtoVHeader, flag_from_super_node, version_v}
use n2n_go.Protocol.Mac.{supernode_mac_addr, HardwareAddr}
use n2n_go.Supernode.State.{Sn, Community, Ref, to_wss, add_u64, to_udp, Edge, Supernode, Sent, Env}
use n2n_go.Supernode.State.Messages.{Reply, packet_type_of}
use n2n_go.Tuntap.Frame.{source}

abbrev pub emit : Sent → Supernode → Supernode
emit x s = record s { sent = s.sent ++ x ∷ [] }

abbrev pub is_empty : Text → Bool
is_empty [] = true
is_empty (b ∷ bs) = false

-- What `forwardPacket` writes: a datagram with the 30-byte header is marked as the supernode's.
unfoldable pub relayed : Text → Result Error Text
relayed [] = err Error.panic
relayed (b ∷ bs) = if nat_beq b version_v then flag_packet_from_supernode (b ∷ bs) else ok (b ∷ bs)

unfoldable pub write_wss : Env → Text → Text → Sn (Unit {0})
write_wss env conn packet s =
    if env.wss_write conn packet
    then (ok tt, emit (to_wss conn packet) s)
    else (err Error.write_failed, s)

unfoldable pub write_udp : Env → IpAddr → ℕ → Text → Sn (Unit {0})
write_udp env ip port packet s =
    if env.udp_write packet ip port
    then (ok tt, emit (to_udp packet ip port) s)
    else (err Error.write_failed, s)

-- Over the edge's WSS connection if it has one, else to its public socket.
unfoldable pub deliver : Env → Text → Edge → Sn (Unit {0})
deliver env packet target s =
    if not (is_empty target.wss_conn_id)
    then (elim (get target.wss_conn_id s.wss_connections) [
      | none ↦ (err Error.wss_not_found, s)
      | some _ ↦ write_wss env target.wss_conn_id packet s
    ])
    else write_udp env target.public_ip target.public_port packet s

-- `forwardPacket`
unfoldable pub forward_packet : Env → Text → Edge → Sn (Unit {0})
forward_packet env packet target s =
    and_then (relayed packet, s) (λ flagged. deliver env flagged target)

-- `Stats.PacketsDropped.Add(1)` and `PacketsForwarded.Add(n)`
abbrev pub count_dropped : Supernode → Supernode
count_dropped s = record s {
  stats = record s.stats { packets_dropped = add_u64 s.stats.packets_dropped 1 };
}

abbrev pub count_forwarded : ℕ → Supernode → Supernode
count_forwarded n s = record s {
  stats = record s.stats { packets_forwarded = add_u64 s.stats.packets_forwarded n };
}

-- A failure is logged and counted. What is broadcast has been unpacked or packed, so that it is never
-- empty and `forwardPacket` never reads past its end.
tally : ℕ → Result Error (Unit {0}) × Supernode → ℕ × Supernode
tally n (ok _, s) = (n + 1, s)
tally n (err _, s) = (n, count_dropped s)

-- One turn of the loop of `broadcast`.
pub send_one : Env → Text → Text → Edge → ℕ × Supernode → ℕ × Supernode
unfolding tally
send_one env packet sender target (n, s) =
    if target.mac_addr == sender then (n, s) else tally n (forward_packet env packet target s)

send_all : Env → Text → Text → List Edge → ℕ × Supernode → ℕ × Supernode
unfolding send_one
send_all env packet sender [] st = st
send_all env packet sender (t ∷ ts) st =
    send_all env packet sender ts (send_one env packet sender t st)

-- `GetAllEdges`: copies of the community's edges.
unfoldable pub all_edges : Supernode → Community → List Edge
all_edges s cm = map s.heap (values cm.edges)

abbrev count_sent : ℕ × Supernode → Supernode
count_sent (sent_count, s) = if ltb 0 sent_count then count_forwarded sent_count s else s

-- `broadcast`
unfoldable pub broadcast : Env → Text → Community → Text → Supernode → Supernode
unfolding send_all
broadcast env packet cm sender_id s =
    count_sent (send_all env packet sender_id (all_edges s cm) (0, s))

-- `SNHeader`; the destination is nil or six bytes.
unfoldable pub sn_header : Env → ℕ → Text → HardwareAddr → Result Error ProtoVHeader
sn_header env pt community dst = do
  source ← copy_id supernode_mac_addr
  dest ← copy_dest dst
  ok (record {
    version = version_v;
    ttl = 64;
    packet_type = pt;
    flags = flag_from_super_node;
    sequence = 0;
    community_id = hash_community community;
    source_id = source;
    dest_id = dest;
    timestamp = env.now / 10 ^ 9 % 2 ^ 32;
    checksum = 0;
  })

-- `addr.String()`, of an address that is not nil.
unfoldable pub addr_string : Env → Addr → Text
addr_string env nil_addr = []
addr_string env (udp ip port) = env.socket_string ip port
addr_string env (tcp ip port) = env.socket_string ip port
addr_string env (wss conn) = conn

-- The first edge behind an open WSS connection of that name.
edge_behind : Supernode → Text → List Ref → Option Edge
edge_behind s name [] = none
edge_behind s name (r ∷ rs) =
    let e = s.heap r in
    let rest = edge_behind s name rs in
    if not (is_empty e.wss_conn_id)
      && is_some (get e.wss_conn_id s.wss_connections)
      && e.wss_conn_id == name
    then some e
    else rest

-- The branch on the type of the address, where no edge is behind it.
send_by_type : Env → Text → Addr → Sn (Unit {0})
send_by_type env packet nil_addr s = (err Error.nil_address, s)
send_by_type env packet (udp ip port) s = write_udp env ip port packet s
send_by_type env packet (tcp ip port) s = (err Error.non_udp_address, s)
send_by_type env packet (wss conn) s = elim (get conn s.wss_connections) [
  | none ↦ (err Error.non_udp_address, s)
  | some _ ↦ write_wss env conn packet s
]

-- To the edge that is behind the address, if one is.
send_via : Env → Text → Addr → Option Edge → Sn (Unit {0})
unfolding send_by_type
send_via env packet addr (some e) s = forward_packet env packet e s
send_via env packet addr none s = send_by_type env packet addr s

send_packet_to : Env → Text → Addr → Sn (Unit {0})
unfolding edge_behind send_via
send_packet_to env packet nil_addr s = (err Error.nil_address, s)
send_packet_to env packet addr s =
    send_via env packet addr (edge_behind s (addr_string env addr) (values s.edges_by_mac)) s

-- The header and the encoded message of `SNStructHeader` and `Encode`.
unfoldable pub struct_packet : Env → Reply → Text → HardwareAddr → Result Error Text
struct_packet env p community dst = do
  header ← sn_header env (packet_type_of p) community dst
  payload ← or_fail Error.encode_failed (env.marshal p)
  ok (pack header payload)

-- `SendStruct`
unfoldable pub send_struct : Env → Reply → Text → HardwareAddr → Addr → Sn (Unit {0})
unfolding send_packet_to
send_struct env p community dst addr s =
    and_then (struct_packet env p community dst, s) (λ packet. send_packet_to env packet addr)

-- `BroadcastStruct`
unfoldable pub broadcast_struct : Env → Reply → Community → HardwareAddr → Text → Sn (Unit {0})
broadcast_struct env p cm dst sender_mac s =
    and_then (struct_packet env p cm.name dst, s)
      (λ packet t. (ok tt, broadcast env packet cm sender_mac t))

-- The last branch of `WritePacket` differs from that of `SendStruct`: it has no case for an
-- unregistered WSS connection, and a nil address is no error.
write_by_type : Env → Text → Addr → Sn (Unit {0})
write_by_type env packet nil_addr s = (ok tt, s)
write_by_type env packet (udp ip port) s = write_udp env ip port packet s
write_by_type env packet (tcp ip port) s = (err Error.non_udp_address, s)
write_by_type env packet (wss conn) s = (err Error.non_udp_address, s)

write_packet_to : Env → Text → Addr → Sn (Unit {0})
unfolding edge_behind write_by_type
write_packet_to env packet nil_addr s = (ok tt, s)
write_packet_to env packet addr s =
    elim (edge_behind s (addr_string env addr) (values s.edges_by_mac)) [
      | some e ↦ forward_packet env packet e s
      | none ↦ write_by_type env packet addr s
    ]

-- `WritePacket`
unfoldable pub write_packet : Env → ℕ → Text → HardwareAddr → Text → Addr → Sn (Unit {0})
unfolding write_packet_to
write_packet env pt community dst payload addr s =
    and_then (sn_header env pt community dst, s)
      (λ header. write_packet_to env (pack header payload) addr)
