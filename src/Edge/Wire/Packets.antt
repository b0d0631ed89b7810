-- ===== src/Edge/Wire/Packets.antt =====
-- The packets that pkg/edge/wire.go writes, where a send succeeds.
-- One packet more is written, to the address given, under a header of the edge.
use n2n_go.Base.{ℕ, ◌<◌, ◌≡◌, refl, sym, ap, ◌∙◌, Bool, some, List, [], ◌∷◌, ◌++◌, arith}
use n2n_go.Base.Bytes.{IsBytes}
use n2n_go.Base.Exec.{ok, and_then-ok, or_fail, or_fail_ok}
use n2n_go.Base.Keys.{Text}
use n2n_go.Edge.State.{
  EdgeSent, EdgeClient, edge_packet_type, unregister_request, EdgeEnv, ack, peer_list_request,
  EdgeMessage, ice_candidate, heartbeat_pulse, UdpAddr, register_request, peer_to_ping,
  p2p_state_info, p2p_full_state, leases_infos, sn_public_secret,
}
use n2n_go.Edge.Wire.{
  write_edge_packet, send_edge_struct, Strategy, edge_header, count_sent_packet, transmit,
  send_v_fuze, udp_addr_with_strategy, towards,
}
use n2n_go.Edge.Wire.Headers.{edge_header_ok, HasMac, IsEdgeHeader}
use n2n_go.Edge.Wire.Sends.{route, transmit_ok}
use n2n_go.Errors.{Error}
use n2n_go.Protocol.Datagram.{pack}
use n2n_go.Protocol.Fuze.{v_fuze_header_bytes}
use n2n_go.Protocol.Header.{ProtoVHeader}
use n2n_go.Protocol.Mac.{HardwareAddr}

pub record IsSentTo (e : EdgeClient) (kind : ℕ) (socket : UdpAddr) (payload : Text) (t : EdgeClient)
    : Type 0 where
  pub header : ProtoVHeader
  pub names_edge : IsEdgeHeader e kind header
  pub write : EdgeSent
  pub routed : route e.has_wss socket (pack header payload) ≡ some write
  pub appended : t.sent ≡ e.sent ++ write ∷ []

module _ (env : EdgeEnv) (kind : ℕ) (dst : HardwareAddr) (e : EdgeClient) (mac : HasMac e)
    (bytes : IsBytes dst) (small : kind < 256) where
  -- The end of `SendStruct` and of `WritePacket`; the counter may have changed in between.
  sent_behind :
      (payload : Text) (socket : UdpAddr) (v : EdgeClient) {h : ProtoVHeader} {u t : EdgeClient}
      → edge_header env kind dst e ≡ (ok h, u)
      → v.sent ≡ u.sent
      → v.has_wss ≡ u.has_wss
      → transmit env (pack h payload) socket v ≡ (ok tt, t)
      → IsSentTo e kind socket payload t
  sent_behind payload socket v {h} {u} {t} made same over' run =
      let (named, before, over) = edge_header_ok env kind dst e mac bytes small made in
      let (x, routed, after) = transmit_ok env (pack h payload) socket v run in
      record {
        header = h;
        names_edge = named;
        write = x;
        routed = ap (λ (b : Bool). route b socket (pack h payload)) (sym over ∙ sym over') ∙ routed;
        appended =
            ap (λ (z : EdgeClient). z.sent) after
            ∙ ap (λ (xs : List EdgeSent). xs ++ x ∷ []) (same ∙ before);
      }

edge_packet_type_lt : (m : EdgeMessage) → edge_packet_type m < 256
edge_packet_type_lt (sn_public_secret m) = omega arith
edge_packet_type_lt (register_request m) = omega arith
edge_packet_type_lt (unregister_request m) = omega arith
edge_packet_type_lt (heartbeat_pulse m) = omega arith
edge_packet_type_lt (peer_list_request m) = omega arith
edge_packet_type_lt (p2p_state_info m) = omega arith
edge_packet_type_lt (p2p_full_state m) = omega arith
edge_packet_type_lt (leases_infos m) = omega arith
edge_packet_type_lt (peer_to_ping m) = omega arith
edge_packet_type_lt (ice_candidate m) = omega arith
edge_packet_type_lt ack = omega arith

-- A message that is sent was encoded, and is written behind a header of its type.
pub send_edge_struct_ok :
    (env : EdgeEnv) (m : EdgeMessage) (dst : HardwareAddr) (strategy : Strategy) (e : EdgeClient)
    {t : EdgeClient}
    → HasMac e
    → IsBytes dst
    → send_edge_struct env m dst strategy e ≡ (ok tt, t)
    → (socket : UdpAddr) × (payload : Text) × (udp_addr_with_strategy env e dst strategy
        ≡ ok socket)
      × (env.marshal m ≡ some payload)
      × IsSentTo e (edge_packet_type m) socket payload t
unfolding send_edge_struct
send_edge_struct_ok env m dst strategy e mac bytes run =
    let (socket, towards, run1) =
      and_then-ok (udp_addr_with_strategy env e dst strategy, e) _ run in
    let (h, made, run2) = and_then-ok (edge_header env (edge_packet_type m) dst e) _ run1 in
    let u = (edge_header env (edge_packet_type m) dst e).1 in
    let (payload, encoded, run3) =
      and_then-ok (or_fail Error.encode_failed (env.marshal m), u) _ run2 in
    (
      socket,
      payload,
      towards,
      or_fail_ok Error.encode_failed (env.marshal m) encoded,
      sent_behind env (edge_packet_type m) dst e mac bytes (edge_packet_type_lt m) payload socket u
          (λ i. (made i, u)) refl refl run3,
    )

-- So is a payload, which is counted.
pub write_edge_packet_ok :
    (env : EdgeEnv) (kind : ℕ) (dst : HardwareAddr) (payload : Text) (strategy : Strategy)
    (e : EdgeClient) {t : EdgeClient}
    → HasMac e
    → IsBytes dst
    → kind < 256
    → write_edge_packet env kind dst payload strategy e ≡ (ok tt, t)
    → (socket : UdpAddr) × (udp_addr_with_strategy env e dst strategy ≡ ok socket)
      × IsSentTo e kind socket payload t
unfolding write_edge_packet
write_edge_packet_ok env kind dst payload strategy e mac bytes small run =
    let (socket, towards, run1) =
      and_then-ok (udp_addr_with_strategy env e dst strategy, e) _ run in
    let (h, made, run2) = and_then-ok (edge_header env kind dst e) _ run1 in
    let u = (edge_header env kind dst e).1 in
    (
      socket,
      towards,
      sent_behind env kind dst e mac bytes small payload socket (count_sent_packet u)
          (λ i. (made i, u)) refl refl run2,
    )

-- On the fast path the payload stands behind the seven bytes that name its destination.
pub send_v_fuze_ok :
    (env : EdgeEnv) (dst : HardwareAddr) (payload : Text) (strategy : Strategy) (e : EdgeClient)
    {t : EdgeClient}
    → send_v_fuze env dst payload strategy e ≡ (ok tt, t)
    → (socket : UdpAddr) × (header : Text) × (x : EdgeSent) × (udp_addr_with_strategy env e dst
          strategy
        ≡ ok socket)
      × (v_fuze_header_bytes dst ≡ ok header)
      × (route e.has_wss socket (header ++ payload) ≡ some x)
      × (t.sent ≡ e.sent ++ x ∷ [])
unfolding send_v_fuze
send_v_fuze_ok env dst payload strategy e run =
    let (socket, towards, run1) =
      and_then-ok (udp_addr_with_strategy env e dst strategy, e) _ run in
    let (header, made, run2) = and_then-ok (v_fuze_header_bytes dst, e) _ run1 in
    let (x, routed, after) =
      transmit_ok env (header ++ payload) socket (count_sent_packet e) run2 in
    (socket, header, x, towards, made, routed, ap (λ (z : EdgeClient). z.sent) after)
