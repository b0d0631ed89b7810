-- ===== src/P2p/Registry/Lifetime.antt =====
-- A peer of the registry of pkg/p2p/p2p.go after it is added, and what stays true of its status.
use mathlib.Core.Path.{subst₂}
use n2n_go.Base.{
  ◌≡◌, refl, ap, inl, inr, Bool, true, some, List, [], ◌∷◌, arith, nat_beq, if◌then◌else◌,
  Bool-cases, Option-cases,
}
use n2n_go.Base.Exec.{and_then, state_of, ok, or_fail}
use n2n_go.Base.Keys.{◌==◌, text_eq, nat_eq}
use n2n_go.Base.Maps.{remove, get-put_self, get, values}
use n2n_go.Errors.{Error}
use n2n_go.P2p.Peer.{PeerInfo}
use n2n_go.P2p.Registry.{
  PeerRegistry, add_peer, Resolver, get_peers_with, socket_of, get_p2_pending_peers, get_peer,
  fresh_peer, replaced, pending_from, insert_peer, with_status, replace_peer,
}
use n2n_go.P2p.Status.{Peer, p2p_pending}
use n2n_go.P2p.Status.Expiry.{IsAlive}
use n2n_go.Protocol.Mac.{mac_string}
use n2n_go.Supernode.State.{Ref}
use n2n_go.Tuntap.Frame.{overwrite}

-- What a peer's addition leaves in the registry.
record Added (env : Resolver) (infos : PeerInfo) (ref : Ref) (t : PeerRegistry) : Type 0 where
  by_mac : get (mac_string infos.mac_addr) t.peers ≡ some ref
  by_socket : get (socket_of env infos) t.peer_by_socket ≡ some ref
  holds : (t.heap ref).infos ≡ infos
  pending : t.has_pending_changes ≡ true

insert_peer-Added :
    (env : Resolver) (infos : PeerInfo) (reg : PeerRegistry)
    → Added env infos reg.next_ref (state_of (insert_peer env infos reg))
unfolding insert_peer
insert_peer-Added env infos reg = record {
  by_mac = get-put_self (mac_string infos.mac_addr) reg.next_ref reg.peers;
  by_socket = get-put_self (socket_of env infos) reg.next_ref reg.peer_by_socket;
  holds = ground arith;
  pending = refl;
}

replace_peer-Added :
    (env : Resolver) (infos : PeerInfo) (ref : Ref) (reg : PeerRegistry)
    → get (mac_string infos.mac_addr) reg.peers ≡ some ref
    → Added env infos ref (state_of (replace_peer env infos ref reg))
unfolding replace_peer
replace_peer-Added env infos ref reg found = record {
  by_mac = found;
  by_socket =
      get-put_self (socket_of env infos) ref
        (remove (socket_of env (reg.heap ref).infos) reg.peer_by_socket);
  holds = ground arith;
  pending = refl;
}

moved :
    (env : Resolver) (infos : PeerInfo) (ref₀ : Ref) (s : PeerRegistry) {ref : Ref}
    {t : PeerRegistry}
    → Added env infos ref₀ s
    → and_then {E = Error} (ok ref₀, s) (λ a u. (ok a, u)) ≡ (ok ref, t)
    → Added env infos ref t
moved env infos ref₀ s {ref} {t} a e =
    let same : ref₀ ≡ ref = ground arith in
    subst₂ (λ x y. Added env infos x y) same (ap (λ z. z.1) e) a

add_peer-Added :
    (env : Resolver) (infos : PeerInfo) (overwrite : Bool) (reg : PeerRegistry) {ref : Ref}
    {t : PeerRegistry}
    → add_peer env infos overwrite reg ≡ (ok ref, t)
    → Added env infos ref t
unfolding add_peer insert_peer replace_peer
add_peer-Added env infos overwrite reg {ref} {t} e =
    elim (Option-cases (get (mac_string infos.mac_addr) reg.peers)) [
      | inl absent ↦
          moved env infos reg.next_ref (state_of (insert_peer env infos reg))
            (insert_peer-Added env infos reg) (ground (arith, absent))
      | inr (old, found) ↦ elim (Bool-cases overwrite) [
        | inr keep ↦ absurd (ground (arith, found, keep))
        | inl over ↦
            moved env infos old (state_of (replace_peer env infos old reg))
              (replace_peer-Added env infos old reg found) (ground (arith, found, over))
      ]
    ]

-- After an `AddPeer` that succeeds, `GetPeer` finds the peer returned under its address, its socket
-- finds it too, it holds the infos that were added, and a change is pending.
pub add_peer_ok :
    (env : Resolver) (infos : PeerInfo) (overwrite : Bool) (reg : PeerRegistry) {ref : Ref}
    {t : PeerRegistry}
    → add_peer env infos overwrite reg ≡ (ok ref, t)
    → (get_peer t (mac_string infos.mac_addr) ≡ ok ref)
      × (get (socket_of env infos) t.peer_by_socket ≡ some ref)
      × ((t.heap ref).infos ≡ infos)
      × (t.has_pending_changes ≡ true)
unfolding get_peer
add_peer_ok env infos overwrite reg {ref} {t} e =
    let a = add_peer-Added env infos overwrite reg e in
    (ap (or_fail Error.peer_not_found) a.by_mac, a.by_socket, a.holds, a.pending)

-- Every peer that is Pending has an attempt left.
abbrev pub AllAlive : PeerRegistry → Type 0
AllAlive reg = (ref : Ref) → IsAlive (reg.heap ref)

replaced-IsAlive :
    (env : Resolver) (infos : PeerInfo) (p : Peer) → IsAlive p → IsAlive (replaced env infos p)
replaced-IsAlive env infos p alive = ground (
  arith,
  Bool-cases (p.infos.virtual_ip == infos.virtual_ip),
  Bool-cases (p.infos.pub_socket == infos.pub_socket),
)

write_peer-AllAlive :
    (ref : Ref) (p : Peer) (reg : PeerRegistry)
    → IsAlive p
    → AllAlive reg
    → (q : Ref) → IsAlive (if nat_beq q ref then p else reg.heap q)
write_peer-AllAlive ref p reg new alive q = elim (Bool-cases (nat_beq q ref)) [
  | inl same ↦ rw same new
  | inr other ↦ rw other (alive q)
]

-- `AddPeer` leaves every Pending peer an attempt.
pub add_peer-AllAlive :
    (env : Resolver) (infos : PeerInfo) (overwrite : Bool) (reg : PeerRegistry)
    → AllAlive reg
    → AllAlive (state_of (add_peer env infos overwrite reg))
unfolding add_peer insert_peer replace_peer
add_peer-AllAlive env infos overwrite reg alive ref =
    elim (Option-cases (get (mac_string infos.mac_addr) reg.peers)) [
      | inl absent ↦
          rw (add_peer, insert_peer, state_of, absent)
            (write_peer-AllAlive reg.next_ref (fresh_peer env infos) reg
              (λ p. absurd (ground arith)) alive ref)
      | inr (old, found) ↦ elim (Bool-cases overwrite) [
        | inr keep ↦ rw (add_peer, state_of, found, keep) (alive ref)
        | inl over ↦
            rw (add_peer, replace_peer, state_of, found, over)
              (write_peer-AllAlive old (replaced env infos (reg.heap old)) reg
                (replaced-IsAlive env infos (reg.heap old) (alive old)) alive ref)
      ]
    ]

pending_from-alive :
    (env : Resolver) (reg : PeerRegistry)
    → AllAlive reg
    → (refs : List Ref) → pending_from env refs reg ≡ (with_status p2p_pending reg refs, reg)
unfolding pending_from with_status
pending_from-alive env reg alive [] = refl
pending_from-alive env reg alive (ref ∷ refs) =
    ground (arith, alive ref, pending_from-alive env reg alive refs)

-- Where every Pending peer has an attempt left, `GetP2PendingPeers` returns exactly the Pending peers and
-- changes nothing.
pub get_p2_pending_peers_lem :
    (env : Resolver) (reg : PeerRegistry)
    → AllAlive reg
    → get_p2_pending_peers env reg ≡ (get_peers_with p2p_pending reg, reg)
unfolding get_p2_pending_peers get_peers_with
get_p2_pending_peers_lem env reg alive = pending_from-alive env reg alive (values reg.peers)
