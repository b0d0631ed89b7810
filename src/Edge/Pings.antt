-- ===== src/Edge/Pings.antt =====
-- The pings of pkg/edge/routines.go, by which an edge finds out whom it reaches directly.
-- `range n` sends whose errors are dropped, and then the one whose error counts.
pub mod Reach
use n2n_go.Base.{ℕ, zero, suc, false, List, [], ◌∷◌}
use n2n_go.Base.Exec.{ok, and_then}
use n2n_go.Base.Keys.{Text}
use n2n_go.Edge.Handlers.{logged}
use n2n_go.Edge.Peers.{peer_updated}
use n2n_go.Edge.Requests.{with_peers}
use n2n_go.Edge.State.{Ed, EdgeMessage, EdgeEnv, EdgeClient, peer_to_ping}
use n2n_go.Edge.Wire.{enforce_p2p, send_edge_struct}
use n2n_go.P2p.Registry.{get_p2_pending_peers, get_peers_with}
use n2n_go.P2p.Status.{p2p_available, update_p2p_status, Peer, p2p_pending, p2p_unknown}
use n2n_go.Protocol.Mac.{mac_string, HardwareAddr}
use n2n_go.Supernode.State.{Ref}

send_pings : EdgeEnv → EdgeMessage → HardwareAddr → ℕ → Ed (Unit {0})
send_pings env m dst zero e = send_edge_struct env m dst enforce_p2p e
send_pings env m dst (suc n) e =
    and_then (logged (send_edge_struct env m dst enforce_p2p e)) λ _. send_pings env m dst n

abbrev pub check_id_for : EdgeEnv → EdgeClient → Peer → Text
check_id_for env e p =
    env.check_id e.id (mac_string e.mac_addr) (mac_string p.infos.mac_addr) p.infos.pub_socket

-- `PingPeer`, of which the interval is not used
unfoldable pub ping_peer : EdgeEnv → Ref → ℕ → ℕ → Ed (Unit {0})
unfolding send_pings
ping_peer env ref n status e =
    let p = e.peers.heap ref in
    let check_id = check_id_for env e p in
    send_pings env (peer_to_ping (record { is_pong = false; check_id = check_id })) p.infos.mac_addr
      n
      (with_peers e
        (peer_updated ref (update_p2p_status env.resolver.now status check_id p) e.peers))

ping_each : EdgeEnv → ℕ → List Ref → Ed (Unit {0})
ping_each env status [] e = (ok tt, e)
ping_each env status (ref ∷ refs) e =
    and_then (logged (ping_peer env ref 3 status e)) λ _. ping_each env status refs

ping_pending : EdgeEnv → Ed (Unit {0})
unfolding ping_each
ping_pending env e =
    let listed = get_p2_pending_peers env.resolver e.peers in
    ping_each env p2p_pending listed.0 (with_peers e listed.1)

-- `UpdatePeersP2PStates`
unfoldable pub update_peers_p2p_states : EdgeEnv → Ed (Unit {0})
unfolding ping_each ping_pending
update_peers_p2p_states env e =
    and_then (ping_each env p2p_pending (get_peers_with p2p_unknown e.peers) e) λ _. λ t.
      and_then (ping_pending env t)
        λ _. λ u. ping_each env p2p_available (get_peers_with p2p_available u.peers) u
