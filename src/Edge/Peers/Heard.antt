-- ===== src/Edge/Peers/Heard.antt =====
-- What a peer's report of whom it reaches does to the peers that it names.
-- The status that news of a peer give it: no ping has left it attempts, or one has.
use n2n_go.Base.{
  ℕ, ◌<◌, ◌≡◌, refl, sym, ap, subst, ◌∙◌, ◌⊎◌, inl, inr, Bool, true, false, ◌&&◌, ◌||◌, Option,
  none, some, List, [], ◌∷◌, arith, nat_beq, if◌then◌else◌, nat_beq_iff, Bool-cases, Option-cases,
  is_some,
}
use n2n_go.Base.Exec.{ok, or_fail, err}
use n2n_go.Base.Keys.{text_beq_iff, ◌==◌, Text, text_eq, nat_eq}
use n2n_go.Base.Maps.{get, Map}
use n2n_go.Edge.Peers.{mark_all, mark_reachable, peer_updated, states_heard}
use n2n_go.Edge.Peers.Reach.{peer_updated-peers, peer_updated-heap}
use n2n_go.Edge.State.{EdgeEnv}
use n2n_go.Errors.{Error}
use n2n_go.P2p.Peer.{PeerP2PInfos, PeerInfo}
use n2n_go.P2p.Registry.{PeerRegistry, get_peer}
use n2n_go.P2p.Status.{p2p_available, update_p2p_status, Peer, p2p_unavailable}
use n2n_go.P2p.Status.Reached.{reached, not_reached}
use n2n_go.Protocol.Mac.{mac_string}
use n2n_go.Supernode.State.{Ref}

abbrev pub heard_status : Peer → ℕ
heard_status p = if nat_beq p.pending_ttl 0 then p2p_unavailable else p2p_available

-- `UpdateP2PStatus` with such news keeps the attempts.
heard_once :
    (now : ℕ) (p : Peer)
    → let q = (update_p2p_status now p2p_available [] p).1 in
      (q.p2p_status ≡ heard_status p) × (q.pending_ttl ≡ p.pending_ttl)
heard_once now p = elim (Bool-cases (nat_beq p.pending_ttl 0)) [
  | inl none_left ↦
      let done = not_reached now [] p ((nat_beq_iff p.pending_ttl 0).0 none_left) in
      (
        ap (λ (z : Bool × Peer). z.1.p2p_status) done ∙ rw none_left refl,
        ap (λ (z : Bool × Peer). z.1.pending_ttl) done,
      )
  | inr alive ↦
      let some_left : 0 < p.pending_ttl = ground (arith, alive) in
      let done = reached now [] p some_left in
      (
        ap (λ (z : Bool × Peer). z.1.p2p_status) done ∙ rw alive refl,
        ap (λ (z : Bool × Peer). z.1.pending_ttl) done,
      )
]

peer_updated-other :
    (ref other : Ref) (q : Bool × Peer) (reg : PeerRegistry)
    → (peer_updated ref q reg).heap other ≡ (if nat_beq other ref then q.1 else reg.heap other)
unfolding peer_updated
peer_updated-other ref other (true, p) reg = refl
peer_updated-other ref other (false, p) reg = refl

-- A peer with the status that news would give it.
abbrev IsHeard : Peer → Type 0
IsHeard p = p.p2p_status ≡ heard_status p

-- Whether a report names an address: as its sender's, or in its list.
abbrev pub listed : Text → List PeerInfo → Bool
listed mac [] = false
listed mac (infos ∷ rest) = mac_string infos.mac_addr == mac || listed mac rest

abbrev pub reports_on : Text → PeerP2PInfos → Text → Bool
reports_on sender m mac = (is_some m.from_peer && sender == mac) || listed mac m.to_peers

module _ (env : EdgeEnv) (ref : Ref) where
  abbrev heard : Peer → Peer
  heard p = (update_p2p_status env.resolver.now p2p_available [] p).1

  heard-IsHeard : (p : Peer) → IsHeard (heard p)
  heard-IsHeard p =
      let (status, attempts) = heard_once env.resolver.now p in
      status ∙ ap (λ (n : ℕ). if nat_beq n 0 then p2p_unavailable else p2p_available) (sym attempts)

  mark_by :
      (mac : Text) (o : Option Ref) (reg : PeerRegistry)
      → get mac reg.peers ≡ o
      → mark_reachable env mac reg ≡ (elim (or_fail Error.peer_not_found o) [
        | err x ↦ reg
        | ok k ↦
            peer_updated k (update_p2p_status env.resolver.now p2p_available [] (reg.heap k)) reg
      ])
  unfolding mark_reachable get_peer
  mark_by mac o reg found =
      ap
        (λ (o : Option Ref). elim (or_fail Error.peer_not_found o) [
          | err x ↦ reg
          | ok k ↦
              peer_updated k (update_p2p_status env.resolver.now p2p_available [] (reg.heap k)) reg
        ])
        found

  mark_reachable-peers :
      (mac : Text) (reg : PeerRegistry) → (mark_reachable env mac reg).peers ≡ reg.peers
  mark_reachable-peers mac reg = elim (Option-cases (get mac reg.peers)) [
    | inl missing ↦ ap (λ (g : PeerRegistry). g.peers) (mark_by mac none reg missing)
    | inr (q, known) ↦
        ap (λ (g : PeerRegistry). g.peers) (mark_by mac (some q) reg known)
        ∙ peer_updated-peers q (update_p2p_status env.resolver.now p2p_available [] (reg.heap q))
            reg
  ]

  mark_own :
      (mac : Text) (reg : PeerRegistry)
      → get mac reg.peers ≡ some ref
      → (mark_reachable env mac reg).heap ref ≡ heard (reg.heap ref)
  mark_own mac reg known =
      ap (λ (g : PeerRegistry). g.heap ref) (mark_by mac (some ref) reg known)
      ∙ peer_updated-heap ref (update_p2p_status env.resolver.now p2p_available [] (reg.heap ref))
          reg

  -- News of another peer leave a peer as it was.
  mark_any :
      (mac : Text) (reg : PeerRegistry)
      → ((mark_reachable env mac reg).heap ref ≡ reg.heap ref)
        ⊎ ((mark_reachable env mac reg).heap ref ≡ heard (reg.heap ref))
  mark_any mac reg = elim (Option-cases (get mac reg.peers)) [
    | inl missing ↦ inl (ap (λ (g : PeerRegistry). g.heap ref) (mark_by mac none reg missing))
    | inr (q, known) ↦ elim (Bool-cases (nat_beq ref q)) [
      | inl same ↦ inr (mark_own mac reg (known ∙ ap some (sym ((nat_beq_iff ref q).0 same))))
      | inr differs ↦ inl (
          ap (λ (g : PeerRegistry). g.heap ref) (mark_by mac (some q) reg known)
          ∙ peer_updated-other q ref
              (update_p2p_status env.resolver.now p2p_available [] (reg.heap q)) reg
          ∙ rw differs refl)
    ]
  ]

  mark_ttl :
      (mac : Text) (reg : PeerRegistry)
      → ((mark_reachable env mac reg).heap ref).pending_ttl ≡ (reg.heap ref).pending_ttl
  mark_ttl mac reg = elim (mark_any mac reg) [
    | inl same ↦ ap (λ (p : Peer). p.pending_ttl) same
    | inr own ↦
        ap (λ (p : Peer). p.pending_ttl) own ∙ (heard_once env.resolver.now (reg.heap ref)).1
  ]

  mark-IsHeard :
      (mac : Text) (reg : PeerRegistry)
      → IsHeard (reg.heap ref)
      → IsHeard ((mark_reachable env mac reg).heap ref)
  mark-IsHeard mac reg before = elim (mark_any mac reg) [
    | inl same ↦ subst IsHeard (sym same) before
    | inr own ↦ subst IsHeard (sym own) (heard-IsHeard (reg.heap ref))
  ]

  mark_all_ttl :
      (l : List PeerInfo) (reg : PeerRegistry)
      → ((mark_all env l reg).heap ref).pending_ttl ≡ (reg.heap ref).pending_ttl
  unfolding mark_all
  mark_all_ttl [] reg = refl
  mark_all_ttl (infos ∷ rest) reg =
      mark_all_ttl rest (mark_reachable env (mac_string infos.mac_addr) reg)
      ∙ mark_ttl (mac_string infos.mac_addr) reg

  mark_all-IsHeard :
      (l : List PeerInfo) (reg : PeerRegistry)
      → IsHeard (reg.heap ref)
      → IsHeard ((mark_all env l reg).heap ref)
  unfolding mark_all
  mark_all-IsHeard [] reg before = before
  mark_all-IsHeard (infos ∷ rest) reg before =
      mark_all-IsHeard rest (mark_reachable env (mac_string infos.mac_addr) reg)
        (mark-IsHeard (mac_string infos.mac_addr) reg before)

  mark_named :
      (mac name : Text) (reg : PeerRegistry)
      → (name == mac) ≡ true
      → get mac reg.peers ≡ some ref
      → IsHeard ((mark_reachable env name reg).heap ref)
  mark_named mac name reg same known =
      let here : get name reg.peers ≡ some ref =
        ap (λ (t : Text). get t reg.peers) ((text_beq_iff name mac).0 same) ∙ known in
      subst IsHeard (sym (mark_own name reg here)) (heard-IsHeard (reg.heap ref))

  mark_all_named :
      (mac : Text) (l : List PeerInfo) (reg : PeerRegistry)
      → get mac reg.peers ≡ some ref
      → listed mac l ≡ true
      → IsHeard ((mark_all env l reg).heap ref)
  unfolding mark_all
  mark_all_named mac [] reg known named = cc
  mark_all_named mac (infos ∷ rest) reg known named =
      let name = mac_string infos.mac_addr in
      let after = mark_reachable env name reg in
      elim (Bool-cases (name == mac)) [
        | inl same ↦ mark_all-IsHeard rest after (mark_named mac name reg same known)
        | inr differs ↦
            mark_all_named mac rest after
              (ap (λ (m : Map Text Ref). get mac m) (mark_reachable-peers name reg) ∙ known)
              (ground (arith, differs, named))
      ]

  -- What the sender's part of a report does, if it has one.
  abbrev after_sender : Text → PeerP2PInfos → PeerRegistry → PeerRegistry
  after_sender sender m reg = if is_some m.from_peer then mark_reachable env sender reg else reg

  sender_ttl :
      (sender : Text) (m : PeerP2PInfos) (reg : PeerRegistry)
      → ((after_sender sender m reg).heap ref).pending_ttl ≡ (reg.heap ref).pending_ttl
  sender_ttl sender m reg = elim (Bool-cases (is_some m.from_peer)) [
    | inl there ↦ rw there (mark_ttl sender reg)
    | inr missing ↦ rw missing refl
  ]

  sender_peers :
      (sender : Text) (m : PeerP2PInfos) (reg : PeerRegistry)
      → (after_sender sender m reg).peers ≡ reg.peers
  sender_peers sender m reg = elim (Bool-cases (is_some m.from_peer)) [
    | inl there ↦ rw there (mark_reachable-peers sender reg)
    | inr missing ↦ rw missing refl
  ]

  states_heard-IsHeard :
      (sender mac : Text) (m : PeerP2PInfos) (reg : PeerRegistry)
      → get mac reg.peers ≡ some ref
      → reports_on sender m mac ≡ true
      → IsHeard ((states_heard env sender m reg).heap ref)
  unfolding states_heard
  states_heard-IsHeard sender mac m reg known named =
      let after = after_sender sender m reg in
      elim (Bool-cases (is_some m.from_peer && sender == mac)) [
        | inl own ↦
            let there : is_some m.from_peer ≡ true = ground (arith, own) in
            let same : (sender == mac) ≡ true = ground (arith, own) in
            mark_all-IsHeard m.to_peers after (rw there (mark_named mac sender reg same known))
        | inr other ↦
            mark_all_named mac m.to_peers after
              (ap (λ (t : Map Text Ref). get mac t) (sender_peers sender m reg) ∙ known)
              (ground (arith, other, named))
      ]

-- A report changes the state of each known peer that it names, its sender or one of its list, by what
-- this edge itself has done: a peer that no ping of this edge has left attempts becomes Unavailable,
-- any other Available.
pub states_heard_lem :
    (env : EdgeEnv) (sender mac : Text) (m : PeerP2PInfos) (reg : PeerRegistry) (ref : Ref)
    → get mac reg.peers ≡ some ref
    → reports_on sender m mac ≡ true
    → let p = (states_heard env sender m reg).heap ref in
      (p.p2p_status
        ≡ (if nat_beq (reg.heap ref).pending_ttl 0 then p2p_unavailable else p2p_available))
      × (p.pending_ttl ≡ (reg.heap ref).pending_ttl)
unfolding states_heard
states_heard_lem env sender mac m reg ref known named =
    let attempts =
      mark_all_ttl env ref m.to_peers (after_sender env ref sender m reg)
      ∙ sender_ttl env ref sender m reg in
    (
      states_heard-IsHeard env ref sender mac m reg known named
          ∙ ap (λ (n : ℕ). if nat_beq n 0 then p2p_unavailable else p2p_available) attempts,
      attempts,
    )
