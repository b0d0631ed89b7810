-- ===== src/Edge/Peers.antt =====
-- The handlers of pkg/edge by which edges talk to each other: pings, and what they say of peers.
-- `UpdateP2PStatus` on the peer behind a reference, and `SetPendingChanges` where it changed.
pub mod Reach
pub mod Heard
use n2n_go.Base.{ℕ, Bool, true, false, not, List, [], ◌∷◌, nat_beq, if◌then◌else◌, is_some}
use n2n_go.Base.Exec.{err, Result, ok, and_then, or_fail}
use n2n_go.Base.Keys.{Text, ◌==◌, text_eq, nat_eq}
use n2n_go.Base.Maps.{Map}
use n2n_go.Edge.Handlers.{
  handle_peer_info_message, handle_retry_register_request, EdgeHandler, logged,
  handle_register_response_message, handle_p2p_full_state_message, handle_data_message,
  handle_leases_infos_message, handle_sn_public_secret_message,
}
use n2n_go.Edge.Requests.{with_peers}
use n2n_go.Edge.State.{ack, EdgeEnv, Ed, ice_candidate, peer_to_ping}
use n2n_go.Edge.Wire.{best_effort, send_edge_struct}
use n2n_go.Errors.{Error}
use n2n_go.P2p.Peer.{PeerP2PInfos, PeerInfo}
use n2n_go.P2p.Registry.{PeerRegistry, get_peer, write_peer, remove_peer}
use n2n_go.P2p.Status.{set_full_duplex, Peer, update_p2p_status, p2p_available, p2p_unknown}
use n2n_go.Protocol.Header.{get_src_mac_addr, is_from_supernode}
use n2n_go.Protocol.Mac.{mac_string}
use n2n_go.Protocol.Message.{edge_mac_addr, to_message, RawMessage, dest_mac_addr}
use n2n_go.Protocol.Spec.{
  type_data, type_p2p_state_info, type_turn_credentials, type_register_response,
  type_unregister_request, type_leases_infos, type_ice_candidate, type_heartbeat,
  type_peer_list_request, type_ack, type_online_check, type_p2p_full_state, type_sn_public_secret,
  type_ping, type_peer_info, type_retry_register_request,
}
use n2n_go.Supernode.State.{Ref}

unfoldable pub peer_updated : Ref → Bool × Peer → PeerRegistry → PeerRegistry
peer_updated ref (changed, p) reg =
    let stored = write_peer ref p reg in
    if changed then record stored { has_pending_changes = true } else stored

-- What a pong does to the status: one that answers another ping makes it unknown.
pong_status : ℕ → Text → Peer → Bool × Peer
pong_status now check_id p =
    if p.p2p_check_id == check_id
    then update_p2p_status now p2p_available check_id p
    else update_p2p_status now p2p_unknown [] p

abbrev changed_of : Result Error Bool → Bool
changed_of (ok changed) = changed
changed_of (err x) = false

-- `changed, _ := p.SetFullDuplex(value)`
duplex_set : Bool → Peer → Bool × Peer
duplex_set value p = (changed_of (set_full_duplex value p).0, (set_full_duplex value p).1)

pong_duplex : Bool → Ref → PeerRegistry → PeerRegistry
unfolding duplex_set
pong_duplex from_supernode ref reg =
    let p = reg.heap ref in
    if nat_beq p.p2p_status p2p_available
    then peer_updated ref (duplex_set (not from_supernode) p) reg
    else reg

-- The answer to one of this edge's pings; the pong of a peer that is gone is ignored.
unfoldable pub pong_received : EdgeEnv → RawMessage → Text → PeerRegistry → PeerRegistry
unfolding pong_status pong_duplex
pong_received env r check_id reg = elim (get_peer reg (edge_mac_addr r)) [
  | err x ↦ reg
  | ok ref ↦
      pong_duplex (is_from_supernode r.header) ref
        (peer_updated ref (pong_status env.resolver.now check_id (reg.heap ref)) reg)
]

-- The answer to a peer's ping; whether it could be sent is not looked at.
answer_ping : EdgeEnv → RawMessage → Text → Ed (Unit {0})
answer_ping env r check_id e =
    and_then (or_fail Error.bad_mac_addr (env.parse_mac (edge_mac_addr r)), e)
      λ dst. λ t.
        if not (dest_mac_addr r == mac_string t.mac_addr)
        then (err Error.wrong_recipient, t)
        else logged (
            send_edge_struct env (peer_to_ping (record { is_pong = true; check_id = check_id })) dst
              best_effort t)

-- `handlePingMessage`
unfoldable pub handle_ping_message : EdgeEnv → EdgeHandler
unfolding answer_ping
handle_ping_message env r e =
    and_then (to_message type_ping env.unmarshal_ping r, e)
      λ m. λ t.
        if not m.msg.is_pong
        then answer_ping env r m.msg.check_id t
        else (ok tt, with_peers t (pong_received env r m.msg.check_id t.peers))

-- `handleUnregisterRequestMessage`
unfoldable pub handle_unregister_request_message : EdgeEnv → EdgeHandler
handle_unregister_request_message env r e =
    and_then (to_message type_unregister_request env.unmarshal_unregister r, e)
      λ m. λ t.
        if edge_mac_addr r == mac_string t.mac_addr
        then (ok tt, t)
        else (ok tt, with_peers t (remove_peer env.resolver (edge_mac_addr r) t.peers))

-- A known peer that is said to be reachable.
mark_reachable : EdgeEnv → Text → PeerRegistry → PeerRegistry
mark_reachable env mac reg = elim (get_peer reg mac) [
  | err x ↦ reg
  | ok ref ↦
      peer_updated ref (update_p2p_status env.resolver.now p2p_available [] (reg.heap ref)) reg
]

mark_all : EdgeEnv → List PeerInfo → PeerRegistry → PeerRegistry
unfolding mark_reachable
mark_all env [] reg = reg
mark_all env (infos ∷ rest) reg =
    mark_all env rest (mark_reachable env (mac_string infos.mac_addr) reg)

-- What `handleP2PStateInfoMessage` does to the registry.
unfoldable pub states_heard : EdgeEnv → Text → PeerP2PInfos → PeerRegistry → PeerRegistry
unfolding mark_all mark_reachable
states_heard env sender m reg =
    mark_all env m.to_peers (if is_some m.from_peer then mark_reachable env sender reg else reg)

-- `handleP2PStateInfoMessage`
unfoldable pub handle_p2p_state_info_message : EdgeEnv → EdgeHandler
handle_p2p_state_info_message env r e =
    and_then (to_message type_p2p_state_info env.unmarshal_p2p_infos r, e)
      λ m. λ t. (ok tt, with_peers t (states_heard env (edge_mac_addr r) m.msg t.peers))

-- `handleOnlineCheckMessage`
unfoldable pub handle_online_check_message : EdgeEnv → EdgeHandler
handle_online_check_message env r e =
    and_then (to_message type_online_check env.unmarshal_online_check r, e)
      λ m. λ t.
        if m.msg.is_reply
        then (ok tt, t)
        else send_edge_struct env ack (get_src_mac_addr r.header) best_effort t

-- The peer that an ICE candidate is for: that of the message, or else that of the header.
ice_target : RawMessage → Text → Text
ice_target r target = if target == [] then dest_mac_addr r else target

-- `handleICECandidateMessage`
unfoldable pub handle_ice_candidate_message : EdgeEnv → EdgeHandler
unfolding ice_target
handle_ice_candidate_message env r e =
    and_then (to_message type_ice_candidate env.unmarshal_ice_candidate r, e)
      λ m. λ t.
        let target = ice_target r m.msg.target_mac in
        if target == []
        then (err Error.no_target, t)
        else and_then (or_fail Error.bad_mac_addr (env.parse_mac target), t)
            λ dst. send_edge_struct env (ice_candidate m.msg) dst best_effort

-- `handleTURNCredentialsMessage`
unfoldable pub handle_turn_credentials_message : EdgeEnv → EdgeHandler
handle_turn_credentials_message env r e =
    and_then (to_message type_turn_credentials env.unmarshal_turn_credentials r, e)
      λ _. λ t. (ok tt, t)

-- `handleHeartbeatMessage`, `handleAckMessage` and `handlePeerListRequestMessage`
abbrev pub ignore_message : EdgeHandler
ignore_message r e = (ok tt, e)

-- The table that `NewEdgeClient` fills.
unfoldable pub edge_handlers : EdgeEnv → Map ℕ EdgeHandler
edge_handlers env =
    (type_data, handle_data_message env)
    ∷ (type_peer_info, handle_peer_info_message env)
    ∷ (type_ping, handle_ping_message env)
    ∷ (type_p2p_full_state, handle_p2p_full_state_message env)
    ∷ (type_leases_infos, handle_leases_infos_message env)
    ∷ (type_retry_register_request, handle_retry_register_request env)
    ∷ (type_register_response, handle_register_response_message env)
    ∷ (type_sn_public_secret, handle_sn_public_secret_message env)
    ∷ (type_heartbeat, ignore_message)
    ∷ (type_unregister_request, handle_unregister_request_message env)
    ∷ (type_ack, ignore_message)
    ∷ (type_peer_list_request, ignore_message)
    ∷ (type_p2p_state_info, handle_p2p_state_info_message env)
    ∷ (type_online_check, handle_online_check_message env)
    ∷ (type_ice_candidate, handle_ice_candidate_message env)
    ∷ (type_turn_credentials, handle_turn_credentials_message env)
    ∷ []
