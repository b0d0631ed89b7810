-- ===== src/Edge/Pings/Reach.antt =====
-- From a ping to its pong, in pkg/edge.
use n2n_go.Base.{
  ℕ, zero, suc, ◌<◌, ◌≡◌, refl, sym, ap, ap₂, subst, ◌∙◌, true, false, not, some, List, [], ◌∷◌,
  ◌++◌, length,
}
use n2n_go.Base.Bytes.{IsBytes}
use n2n_go.Base.Exec.{state_of, ok, and_then-ok, Result}
use n2n_go.Base.Keys.{Text, text_eq, nat_eq}
use n2n_go.Base.Maps.{get, Map}
use n2n_go.Edge.Handlers.{logged}
use n2n_go.Edge.Handlers.Handshake.{logged_state}
use n2n_go.Edge.Peers.{peer_updated, pong_received, handle_ping_message}
use n2n_go.Edge.Peers.Reach.{peer_updated-peers, peer_updated-heap, pong_received_matching}
use n2n_go.Edge.Pings.{check_id_for, ping_peer, send_pings}
use n2n_go.Edge.Requests.{with_peers}
use n2n_go.Edge.State.{EdgeMessage, EdgeSent, EdgeClient, peer_to_ping, EdgeEnv}
use n2n_go.Edge.Wire.{enforce_p2p, send_edge_struct}
use n2n_go.Edge.Wire.Headers.{IsEdgeHeader, HasMac}
use n2n_go.Edge.Wire.Packets.{send_edge_struct_ok}
use n2n_go.Edge.Wire.Sends.{
  send_edge_struct-OnlySends, packet_of, and_then-OnlySends, OnlySends-trans, OnlySends,
  route-packet_of,
}
use n2n_go.Errors.{Error}
use n2n_go.P2p.Registry.{PeerRegistry}
use n2n_go.P2p.Status.{update_p2p_status, Peer, p2p_available}
use n2n_go.P2p.Status.Reached.{kept_check_id}
use n2n_go.Protocol.Datagram.{pack}
use n2n_go.Protocol.Hash.{hash_community}
use n2n_go.Protocol.Header.{ProtoVHeader, is_from_supernode}
use n2n_go.Protocol.Mac.{HardwareAddr}
use n2n_go.Protocol.Message.{Message, RawMessage, to_message, edge_mac_addr}
use n2n_go.Protocol.Spec.{type_ping}
use n2n_go.Supernode.State.{Ref}
use n2n_go.Supernode.State.Messages.{PeerToPing}

send_pings-OnlySends :
    (env : EdgeEnv) (m : EdgeMessage) (dst : HardwareAddr) (n : ℕ) (e : EdgeClient)
    → OnlySends e (state_of (send_pings env m dst n e))
unfolding send_pings
send_pings-OnlySends env m dst zero e = send_edge_struct-OnlySends env m dst enforce_p2p e
send_pings-OnlySends env m dst (suc n) e =
    and_then-OnlySends e (logged (send_edge_struct env m dst enforce_p2p e)) _
      (subst (OnlySends e) (sym (logged_state (send_edge_struct env m dst enforce_p2p e)))
        (send_edge_struct-OnlySends env m dst enforce_p2p e))
      (λ u. send_pings-OnlySends env m dst n)

-- Where the pings end well, the last of them was sent by an edge that differs in what it sent only.
send_pings_last :
    (env : EdgeEnv) (m : EdgeMessage) (dst : HardwareAddr) (n : ℕ) (e : EdgeClient) {t : EdgeClient}
    → send_pings env m dst n e ≡ (ok tt, t)
    → (v : EdgeClient) × OnlySends e v × (send_edge_struct env m dst enforce_p2p v ≡ (ok tt, t))
unfolding send_pings
send_pings_last env m dst zero e run = (e, record { kept = refl }, run)
send_pings_last env m dst (suc n) e run =
    let first = logged (send_edge_struct env m dst enforce_p2p e) in
    let (u, sent, rest) = and_then-ok first _ run in
    let only =
      subst (OnlySends e) (sym (logged_state (send_edge_struct env m dst enforce_p2p e)))
        (send_edge_struct-OnlySends env m dst enforce_p2p e) in
    let (v, kept, last) = send_pings_last env m dst n (state_of first) rest in
    (v, OnlySends-trans e (state_of first) v only kept, last)

-- The last packet that an edge has written is a ping with this check id.
pub record HasPinged (env : EdgeEnv) (e : EdgeClient) (check_id : Text) (t : EdgeClient)
    : Type 0 where
  pub payload : Text
  pub encoded :
      env.marshal (peer_to_ping (record { is_pong = false; check_id = check_id })) ≡ some payload
  pub header : ProtoVHeader
  pub names_edge : IsEdgeHeader e type_ping header
  pub before : List EdgeSent
  pub write : EdgeSent
  pub last : t.sent ≡ before ++ write ∷ []
  pub carries : packet_of write ≡ pack header payload

pinged :
    (env : EdgeEnv) (check_id : Text) (dst : HardwareAddr) (n : ℕ) (e : EdgeClient) {t : EdgeClient}
    → HasMac e
    → IsBytes dst
    → send_pings env (peer_to_ping (record { is_pong = false; check_id = check_id })) dst n e
      ≡ (ok tt, t)
    → HasPinged env e check_id t
pinged env check_id dst n e {t} mac bytes run =
    let m = peer_to_ping (record { is_pong = false; check_id = check_id }) in
    let (v, only, last) = send_pings_last env m dst n e run in
    let same_mac : v.mac_addr ≡ e.mac_addr = ap (λ (z : EdgeClient). z.mac_addr) only.kept in
    let mac_v : HasMac v = record {
      size = ap (λ (a : Text). length a) same_mac ∙ mac.size;
      bytes = subst IsBytes (sym same_mac) mac.bytes;
    } in
    let (socket, payload, towards, encoded, sent) =
      send_edge_struct_ok env m dst enforce_p2p v mac_v bytes last in
    record {
      payload = payload;
      encoded = encoded;
      header = sent.header;
      names_edge = record {
        fits = sent.names_edge.fits;
        typed = sent.names_edge.typed;
        community =
            sent.names_edge.community
            ∙ ap (λ (z : EdgeClient). hash_community z.community) only.kept;
        source = sent.names_edge.source ∙ same_mac;
      };
      before = v.sent;
      write = sent.write;
      last = sent.appended;
      carries = route-packet_of v.has_wss socket (pack sent.header payload) sent.routed;
    }

-- A peer is pinged, whatever its state and that of the pings, the last ping can be sent, and the peer has
-- an attempt left: the last packet that the edge wrote is then a ping with a check id, and a pong of the
-- peer with that check id makes the peer Available, and full duplex just where it did not come by way of
-- the supernode.
pub ping_then_pong :
    (env later : EdgeEnv) (r : RawMessage) (ref : Ref) (n status : ℕ) (e : EdgeClient)
    (m : Message PeerToPing) {t : EdgeClient}
    → HasMac e
    → IsBytes (e.peers.heap ref).infos.mac_addr
    → get (edge_mac_addr r) e.peers.peers ≡ some ref
    → let check_id = check_id_for env e (e.peers.heap ref) in
      0 < (update_p2p_status env.resolver.now status check_id (e.peers.heap ref)).1.pending_ttl
      → ping_peer env ref n status e ≡ (ok tt, t)
      → to_message type_ping later.unmarshal_ping r ≡ ok m
      → m.msg.is_pong ≡ true
      → m.msg.check_id ≡ check_id_for env e (e.peers.heap ref)
      → let p = (state_of (handle_ping_message later r t)).peers.heap ref in
        HasPinged env e (check_id_for env e (e.peers.heap ref)) t
        × (p.p2p_status ≡ p2p_available)
        × (p.is_full_duplex ≡ not (is_from_supernode r.header))
unfolding ping_peer handle_ping_message
ping_then_pong env later r ref n status e m {t} mac bytes known left run read is_pong answers =
    let p = e.peers.heap ref in
    let check_id = check_id_for env e p in
    let now = env.resolver.now in
    let reg = peer_updated ref (update_p2p_status now status check_id p) e.peers in
    let stored = peer_updated-heap ref (update_p2p_status now status check_id p) e.peers in
    let (available, duplex, _) =
      pong_received_matching later r check_id reg ref
        (ap (λ (g : Map Text Ref). get (edge_mac_addr r) g)
            (peer_updated-peers ref (update_p2p_status now status check_id p) e.peers)
          ∙ known)
        (ap (λ (q : Peer). q.p2p_check_id) stored ∙ kept_check_id now check_id p status left)
        (subst (λ (k : ℕ). 0 < k) (sym (ap (λ (q : Peer). q.pending_ttl) stored)) left) in
    let ping = peer_to_ping (record { is_pong = false; check_id = check_id }) in
    let sent =
      pinged env check_id p.infos.mac_addr n (with_peers e reg)
        (record { size = mac.size; bytes = mac.bytes }) bytes run in
    let same : t.peers ≡ reg =
      ap (λ (z : Result Error (Unit {0}) × EdgeClient). z.1.peers) (sym run)
      ∙ ap (λ (z : EdgeClient). z.peers)
          (send_pings-OnlySends env ping p.infos.mac_addr n (with_peers e reg)).kept in
    let heard : (state_of (handle_ping_message later r t)).peers
        ≡ pong_received later r m.msg.check_id t.peers =
      simp (read, is_pong) in
    let whole : (state_of (handle_ping_message later r t)).peers
        ≡ pong_received later r check_id reg =
      heard ∙ ap₂ (λ (id : Text) (g : PeerRegistry). pong_received later r id g) answers same in
    (
      record {
        payload = sent.payload;
        encoded = sent.encoded;
        header = sent.header;
        names_edge = record {
          fits = sent.names_edge.fits;
          typed = sent.names_edge.typed;
          community = sent.names_edge.community;
          source = sent.names_edge.source;
        };
        before = sent.before;
        write = sent.write;
        last = sent.last;
        carries = sent.carries;
      },
      ap (λ (g : PeerRegistry). (g.heap ref).p2p_status) whole ∙ available,
      ap (λ (g : PeerRegistry). (g.heap ref).is_full_duplex) whole ∙ duplex,
    )
