-- ===== src/Edge/Requests/Asked.antt =====
-- What an edge asks of its supernode goes to the supernode.
use n2n_go.Base.{◌≡◌, subst, some, [], arith}
use n2n_go.Base.Exec.{ok}
use n2n_go.Base.Keys.{Text}
use n2n_go.Edge.Requests.{to_supernode}
use n2n_go.Edge.State.{edge_packet_type, UdpAddr, EdgeClient, EdgeEnv, EdgeMessage}
use n2n_go.Edge.Wire.{enforce_supernode, udp_addr_with_strategy}
use n2n_go.Edge.Wire.Headers.{HasMac}
use n2n_go.Edge.Wire.Packets.{send_edge_struct_ok, IsSentTo}

supernode_only :
    (env : EdgeEnv) (e : EdgeClient) {socket : UdpAddr}
    → udp_addr_with_strategy env e [] enforce_supernode ≡ ok socket
    → socket ≡ e.supernode_addr
unfolding udp_addr_with_strategy
supernode_only env e towards = ground arith

-- A request that is sent without an error is one packet to the supernode, over the WSS connection or
-- to the supernode's socket, behind a header with the edge's address and the hash of its community.
pub to_supernode_ok :
    (env : EdgeEnv) (m : EdgeMessage) (e : EdgeClient) {t : EdgeClient}
    → HasMac e
    → to_supernode env m e ≡ (ok tt, t)
    → (payload : Text) × (env.marshal m ≡ some payload)
      × IsSentTo e (edge_packet_type m) e.supernode_addr payload t
to_supernode_ok env m e {t} mac run =
    let (socket, payload, towards, encoded, sent) =
      send_edge_struct_ok env m [] enforce_supernode e mac tt run in
    (
      payload,
      encoded,
      subst (λ (s : UdpAddr). IsSentTo e (edge_packet_type m) s payload t)
          (supernode_only env e towards) sent,
    )
