-- ===== src/Edge/Peers/Reach.antt =====
-- What a pong does to a peer of the registry.
use n2n_go.Base.{
  ◌<◌, ◌≡◌, refl, ap, ◌∙◌, Bool, true, false, not, Option, some, [], arith, nat_beq, if◌then◌else◌,
  nat_beq_iff,
}
use n2n_go.Base.Exec.{err, ok, or_fail}
use n2n_go.Base.Keys.{text_beq_iff, Text, text_eq, nat_eq}
use n2n_go.Base.Maps.{get}
use n2n_go.Edge.Peers.{pong_received, peer_updated, pong_status, duplex_set, pong_duplex}
use n2n_go.Edge.State.{EdgeEnv}
use n2n_go.Errors.{Error}
use n2n_go.P2p.Registry.{PeerRegistry, get_peer}
use n2n_go.P2p.Status.{p2p_unknown, update_p2p_status, set_full_duplex, Peer, p2p_available}
use n2n_go.P2p.Status.Reached.{reached}
use n2n_go.Protocol.Header.{is_from_supernode}
use n2n_go.Protocol.Message.{RawMessage, edge_mac_addr}
use n2n_go.Supernode.State.{Ref}

pub peer_updated-heap :
    (ref : Ref) (q : Bool × Peer) (reg : PeerRegistry) → (peer_updated ref q reg).heap ref ≡ q.1
unfolding peer_updated
peer_updated-heap ref (true, p) reg = ground arith
peer_updated-heap ref (false, p) reg = ground arith

pub peer_updated-peers :
    (ref : Ref) (q : Bool × Peer) (reg : PeerRegistry) → (peer_updated ref q reg).peers ≡ reg.peers
unfolding peer_updated
peer_updated-peers ref (true, p) reg = refl
peer_updated-peers ref (false, p) reg = refl

set_full_duplex-available :
    (value : Bool) (p : Peer)
    → p.p2p_status ≡ p2p_available
    → (set_full_duplex value p).1 ≡ record p { is_full_duplex = value }
unfolding set_full_duplex
set_full_duplex-available true p available =
    let on : nat_beq p.p2p_status p2p_available ≡ true = ground (arith, available) in simp on
set_full_duplex-available false p available = refl

module _ (env : EdgeEnv) (r : RawMessage) (check_id : Text) (reg : PeerRegistry) (ref : Ref) where
  abbrev pub after_pong : Peer
  after_pong = (pong_received env r check_id reg).heap ref

  abbrev status_first : PeerRegistry
  status_first = peer_updated ref (pong_status env.resolver.now check_id (reg.heap ref)) reg

  known_pong :
      get (edge_mac_addr r) reg.peers ≡ some ref
      → pong_received env r check_id reg ≡ pong_duplex (is_from_supernode r.header) ref status_first
  unfolding pong_received get_peer
  known_pong known =
      ap
        (λ (o : Option Ref). elim (or_fail Error.peer_not_found o) [
          | err x ↦ reg
          | ok q ↦
              pong_duplex (is_from_supernode r.header) q
                (peer_updated q (pong_status env.resolver.now check_id (reg.heap q)) reg)
        ])
        known

  duplex_heap :
      (status_first.heap ref).p2p_status ≡ p2p_available
      → (pong_duplex (is_from_supernode r.header) ref status_first).heap ref
        ≡ record (status_first.heap ref) { is_full_duplex = not (is_from_supernode r.header) }
  unfolding pong_duplex duplex_set
  duplex_heap available =
      let p = status_first.heap ref in
      let value = not (is_from_supernode r.header) in
      let on : nat_beq p.p2p_status p2p_available ≡ true =
        (nat_beq_iff p.p2p_status p2p_available).1 available in
      ap
        (λ (b : Bool).
          (if b then peer_updated ref (duplex_set value p) status_first else status_first).heap ref)
        on
      ∙ peer_updated-heap ref (duplex_set value p) status_first
      ∙ set_full_duplex-available value p available

  matched :
      (reg.heap ref).p2p_check_id ≡ check_id
      → 0 < (reg.heap ref).pending_ttl
      → status_first.heap ref ≡ record (reg.heap ref) {
        p2p_check_id = check_id;
        p2p_status = p2p_available;
        updated_at = env.resolver.now;
      }
  unfolding pong_status
  matched same alive =
      let p = reg.heap ref in
      let now = env.resolver.now in
      peer_updated-heap ref (pong_status now check_id p) reg
      ∙ ap
          (λ (b : Bool).
            (if b
              then update_p2p_status now p2p_available check_id p
              else update_p2p_status now p2p_unknown [] p).1)
          ((text_beq_iff p.p2p_check_id check_id).1 same)
      ∙ ap (λ (q : Bool × Peer). q.1) (reached now check_id p alive)

  -- The answer to the last ping of a peer that has an attempt left makes the peer Available; whether
  -- both directions are direct is read off the answer's flag.
  pub pong_received_matching :
      get (edge_mac_addr r) reg.peers ≡ some ref
      → (reg.heap ref).p2p_check_id ≡ check_id
      → 0 < (reg.heap ref).pending_ttl
      → (after_pong.p2p_status ≡ p2p_available)
        × (after_pong.is_full_duplex ≡ not (is_from_supernode r.header))
        × (after_pong.p2p_check_id ≡ check_id)
  pong_received_matching known same alive =
      let first = matched same alive in
      let whole =
        ap (λ (g : PeerRegistry). g.heap ref) (known_pong known)
        ∙ duplex_heap (ap (λ (p : Peer). p.p2p_status) first) in
      (
        ap (λ (p : Peer). p.p2p_status) whole ∙ ap (λ (p : Peer). p.p2p_status) first,
        ap (λ (p : Peer). p.is_full_duplex) whole,
        ap (λ (p : Peer). p.p2p_check_id) whole ∙ ap (λ (p : Peer). p.p2p_check_id) first,
      )
