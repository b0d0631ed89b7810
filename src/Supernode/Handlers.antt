-- ===== src/Supernode/Handlers.antt =====
-- pkg/supernode/handlers.go: one handler for each packet type, and the fast path.
pub mod Fuze
use n2n_go.Base.{ℕ, Bool, true, false, not, Option, none, some, [], nat_beq, if◌then◌else◌}
use n2n_go.Base.Exec.{err, state_of, Result, and_then, ok, or_fail}
use n2n_go.Base.Keys.{Text, ◌==◌, text_eq, nat_eq}
use n2n_go.Base.Maps.{get, put}
use n2n_go.Errors.{Error}
use n2n_go.Net.{wss, nil_addr, tcp, Addr, udp}
use n2n_go.P2p.Peer.{event_register}
use n2n_go.Protocol.Fuze.{v_fuze_packet_dest_mac_addr}
use n2n_go.Protocol.Mac.{mac_string}
use n2n_go.Protocol.Message.{to_message, edge_mac_addr, RawMessage}
use n2n_go.Protocol.Spec.{
  type_p2p_state_info, type_p2p_full_state, type_unregister_request, type_register_request,
  type_heartbeat, type_sn_public_secret, type_ping, type_leases_infos, type_data,
  type_peer_list_request,
}
use n2n_go.Supernode.Community.{refresh_edge, get_edge, write_edge, set_p2p_infos_for}
use n2n_go.Supernode.Forward.{forward_unicast, forward_with_fall_back}
use n2n_go.Supernode.Registration.{
  validate_edge_claimed_mac_addr, register_edge, new_peer_info_event, get_community,
  unregister_edge, deref,
}
use n2n_go.Supernode.State.{Edge, Community, Supernode, add_u64, Sn, Env, Ref}
use n2n_go.Supernode.State.Messages.{
  register_response, peer_info_list, Reply, sn_public_secret, p2p_full_state, leases_infos,
}
use n2n_go.Supernode.Views.{
  get_community_peer_p2p_infos_datas, get_peer_info_list, get_leases_with_edges_infos,
}
use n2n_go.Supernode.Wire.{
  count_dropped, forward_packet, send_struct, addr_string, is_empty, broadcast_struct,
}

abbrev pub Handler : Type 0
Handler = RawMessage → Sn (Unit {0})

pub handle_p2p_state_info_message : Env → Handler
handle_p2p_state_info_message env r s =
    and_then (to_message type_p2p_state_info env.unmarshal_p2p_infos r, s)
      λ m. λ t.
        and_then (get_community t r, t)
          λ cm. set_p2p_infos_for r.header.community_id cm (edge_mac_addr r) m.msg

-- The end of three handlers: the answer goes to the edge's WSS connection, or to its UDP socket.
answer : Env → Community → Reply → Text → Text → Sn (Unit {0})
answer env cm reply community mac s = elim (get_edge s cm mac) [
  | none ↦ (err Error.edge_not_in_community, s)
  | some e ↦
      send_struct env reply community []
        (if not (is_empty e.wss_conn_id) then wss e.wss_conn_id else udp e.public_ip e.public_port)
        s
]

pub handle_peer_request_message : Env → Handler
unfolding answer
handle_peer_request_message env r s =
    and_then (to_message type_peer_list_request env.unmarshal_peer_list_request r, s)
      λ m. λ t.
        and_then (get_community t r, t)
          λ cm. λ u.
            answer env cm (peer_info_list (get_peer_info_list env cm (edge_mac_addr r) true u))
              m.msg.community_name (edge_mac_addr r) u

-- Only requests are answered.
require_request : Bool → Result Error (Unit {0})
require_request true = ok tt
require_request false = err Error.not_a_request

leases_reply : Env → Community → Supernode → Reply
leases_reply env cm s = leases_infos (record {
  is_request = false;
  community_name = cm.name;
  leases = get_leases_with_edges_infos env cm s;
})

pub handle_leases_infos_message : Env → Handler
unfolding answer require_request leases_reply
handle_leases_infos_message env r s =
    and_then (to_message type_leases_infos env.unmarshal_leases_infos r, s)
      λ m. λ t.
        and_then (require_request m.msg.is_request, t)
          λ _. λ u.
            and_then (get_community u r, u)
              λ cm. λ v. answer env cm (leases_reply env cm v) cm.name (edge_mac_addr r) v

pub handle_unregister_message : Env → Handler
handle_unregister_message env r s =
    and_then (to_message type_unregister_request env.unmarshal_unregister r, s)
      λ m. λ t.
        and_then
          (
            validate_edge_claimed_mac_addr env (edge_mac_addr r) m.msg.encrypted_machine_id
                m.msg.community_name,
            t,
          )
          (λ _. unregister_edge env r)

-- A registration over WSS binds the edge to that connection; one over UDP leaves the binding.
bind_connection : Addr → Edge → Edge
bind_connection (wss conn) e = record e { wss_conn_id = conn }
bind_connection nil_addr e = e
bind_connection (udp ip port) e = e
bind_connection (tcp ip port) e = e

index_edge : Env → Ref → Edge → Supernode → Supernode
index_edge env ref e s =
    let by_socket = put (env.socket_string e.public_ip e.public_port) ref s.edges_by_socket in
    record s {
      edges_by_mac = put e.mac_addr ref s.edges_by_mac;
      edges_by_socket =
          if not (is_empty e.wss_conn_id) then put e.wss_conn_id ref by_socket else by_socket;
    }

registered_reply : Env → Edge → Reply
registered_reply env e = register_response (record {
  is_register_ok = true;
  virtual_ip = env.vip_string e.virtual_ip;
  masklen = e.vnet_mask_len;
})

refused_reply : Reply
refused_reply = register_response (record { is_register_ok = false; virtual_ip = []; masklen = 0 })

-- What `handleRegisterMessage` does once the edge is registered.
registered : Env → RawMessage → Text → Ref × ℕ → Sn (Unit {0})
unfolding bind_connection index_edge registered_reply
registered env r community (ref, h) s =
    let e = bind_connection r.from_addr (s.heap ref) in
    let indexed = index_edge env ref e (write_edge ref e s) in
    let replied =
      state_of (send_struct env (registered_reply env e) community [] r.from_addr indexed) in
    and_then (or_fail Error.panic (get h replied.communities), replied)
      λ cm. broadcast_struct env (new_peer_info_event env event_register e) cm [] (edge_mac_addr r)

refused : Env → RawMessage → Text → Error → Sn (Unit {0})
unfolding refused_reply
refused env r community e s =
    (err e, count_dropped (state_of (send_struct env refused_reply community [] r.from_addr s)))

register_outcome :
    Env
    → RawMessage
    → Text
    → Result Error (Ref × ℕ) × Supernode
    → Result Error (Unit {0}) × Supernode
unfolding registered refused
register_outcome env r community (ok (ref, h), s) = registered env r community (ref, h) s
register_outcome env r community (err Error.panic, s) = (err Error.panic, s)
register_outcome env r community (err e, s) = refused env r community e s

pub handle_register_message : Env → Handler
unfolding register_outcome
handle_register_message env r s =
    and_then (to_message type_register_request env.unmarshal_register r, s)
      λ m. λ t. register_outcome env r m.msg.community_name (register_edge env r m.msg t)

abbrev count_heartbeat : Supernode → Supernode
count_heartbeat s = record s {
  stats = record s.stats { heartbeats_received = add_u64 s.stats.heartbeats_received 1 };
}

-- The other edges are told of a new socket.
announce : Env → RawMessage → Community → Bool → Sn (Unit {0})
announce env r cm changed s =
    let cm' = deref r.header.community_id cm s in
    elim (get_edge s cm' (edge_mac_addr r)) [
      | none ↦ (ok tt, s)
      | some e ↦
          if changed
          then (
            ok tt,
            state_of (
                broadcast_struct env (new_peer_info_event env event_register e) cm' []
                  (edge_mac_addr r) s),
          )
          else (ok tt, s)
    ]

pub handle_heartbeat_message : Env → Handler
unfolding announce
handle_heartbeat_message env r s =
    and_then (to_message type_heartbeat env.unmarshal_heartbeat r, s)
      λ m. λ t.
        and_then (get_community t r, t)
          λ cm. λ u.
            and_then
              (
                or_fail Error.decrypt_failed (env.decrypt m.msg.encrypted_machine_id),
                count_heartbeat u,
              )
              λ clear_id. λ v.
                and_then (refresh_edge env cm clear_id r v) (λ changed. announce env r cm changed)

pub handle_p2p_full_state_message : Env → Handler
unfolding answer require_request
handle_p2p_full_state_message env r s =
    and_then (to_message type_p2p_full_state env.unmarshal_p2p_full_state r, s)
      λ m. λ t.
        and_then (require_request m.msg.is_request, t)
          λ _. λ u.
            and_then (get_community u r, u)
              λ cm. λ v.
                and_then (get_community_peer_p2p_infos_datas env cm (edge_mac_addr r) v, v)
                  λ state. answer env cm (p2p_full_state state) cm.name (edge_mac_addr r)

unfoldable pub handle_ping_message : Env → Handler
handle_ping_message env r s =
    if not (nat_beq r.header.packet_type type_ping)
    then (err Error.wrong_packet_type, s)
    else forward_unicast env r s

pub handle_sn_public_secret_message : Env → Handler
unfolding require_request
handle_sn_public_secret_message env r s =
    and_then (to_message type_sn_public_secret env.unmarshal_sn_public_secret r, s)
      λ m. λ t.
        and_then (require_request m.msg.is_request, t)
          λ _. λ u.
            send_struct env (sn_public_secret (record { is_request = false; pem_data = u.pem })) []
              [] r.from_addr u

unfoldable pub handle_data_message : Env → Handler
handle_data_message env r s =
    if not (nat_beq r.header.packet_type type_data)
    then (err Error.wrong_packet_type, s)
    else forward_with_fall_back env r s

-- The two edges of a VFuze packet must be known, and of one community.
fuze_between : Env → Text → Option Ref → Option Ref → Supernode → Supernode
fuze_between env packet (some dst) (some src) s =
    if (s.heap dst).community == (s.heap src).community
    then state_of (forward_packet env packet (s.heap dst) s)
    else s
fuze_between env packet (some dst) none s = s
fuze_between env packet none src s = s

-- `handleVFuze`, which logs its errors and returns nothing.
unfoldable pub handle_v_fuze : Env → Text → Addr → Supernode → Supernode
unfolding fuze_between
handle_v_fuze env packet addr s = elim (v_fuze_packet_dest_mac_addr packet) [
  | err e ↦ s
  | ok dst ↦
      if s.enable_v_fuze
      then fuze_between env packet (get (mac_string dst) s.edges_by_mac)
          (get (addr_string env addr) s.edges_by_socket) s
      else s
]
