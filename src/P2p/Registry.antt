-- ===== src/P2p/Registry.antt =====
-- `PeerRegistry` of pkg/p2p/p2p.go. Go's `*Peer` is a reference into `heap`, since the registry's two
-- maps share their peers.
pub mod Listing
pub mod Lifetime
use n2n_go.Base.{
  ℕ, suc, ◌%◌, Bool, true, false, not, ◌&&◌, ◌||◌, Option, none, some, List, [], ◌∷◌, ltb, nat_beq,
  if◌then◌else◌, is_some,
}
use n2n_go.Base.Exec.{ok, err, and_then, or_fail, Exec, Result}
use n2n_go.Base.Keys.{◌==◌, Text, text_eq, nat_eq}
use n2n_go.Base.Maps.{Map, get, put, values, keys, remove}
use n2n_go.Errors.{Error}
use n2n_go.Net.{IpAddr}
use n2n_go.P2p.Peer.{
  PeerInfoList, PeerInfo, PeerCachedInfo, event_unregister, event_register, event_list,
  PeerP2PInfos,
}
use n2n_go.P2p.Status.{p2p_unknown, Peer, update_p2p_status, p2p_pending, p2p_unavailable}
use n2n_go.Protocol.Mac.{mac_string}
use n2n_go.Supernode.State.{Ref}
use n2n_go.Tuntap.Frame.{overwrite}
use mathlib.Core.Option

-- What package net and the clock give to one call.
pub record Resolver : Type 0 where
  pub now : ℕ
  -- `net.SplitHostPort`
  pub split_host_port : Text → Option (Text × Text)
  -- `net.ParseIP`, nil being empty
  pub parse_ip : Text → IpAddr
  -- `net.LookupPort`, 0 on an error
  pub lookup_port : Text → ℕ
  -- `(*net.UDPAddr).String`; that of a nil pointer is "<nil>"
  pub udp_string : Option (IpAddr × ℕ) → Text

pub record PeerRegistry : Type 0 where
  pub community_name : Text
  pub me : Option Peer
  pub peers : Map Text Ref
  pub peer_by_socket : Map Text Ref
  pub heap : Ref → Peer
  pub next_ref : Ref
  pub reachables : Option (Map Text PeerP2PInfos)
  pub unreachables : Option (Map Text PeerCachedInfo)
  pub is_waiting_community_datas : Bool
  pub has_pending_changes : Bool

abbrev pub Reg : Type 0 → Type 0
Reg A = Exec PeerRegistry Error A

-- `NewPeerRegistry`
unfoldable pub new_peer_registry : Text → (Ref → Peer) → PeerRegistry
new_peer_registry name heap = record {
  community_name = name;
  me = none;
  peers = [];
  peer_by_socket = [];
  heap = heap;
  next_ref = 0;
  reachables = none;
  unreachables = none;
  is_waiting_community_datas = false;
  has_pending_changes = false;
}

-- `UpdateP2PCommunityDatas`
unfoldable pub update_p2p_community_datas :
    Option (Map Text PeerP2PInfos) → Option (Map Text PeerCachedInfo) → Reg (Unit {0})
update_p2p_community_datas none unreachables reg = (err Error.nil_reachables, reg)
update_p2p_community_datas (some reachables) unreachables reg = (
  ok tt,
  record reg {
    reachables = some reachables;
    unreachables = some (Option.get_or unreachables []);
    is_waiting_community_datas = false;
  },
)

infos_of : PeerRegistry → List Ref → List PeerInfo
infos_of reg [] = []
infos_of reg (ref ∷ refs) = (reg.heap ref).infos ∷ infos_of reg refs

-- `GetPeerP2PInfos`
unfoldable pub get_peer_p2p_infos : PeerRegistry → PeerP2PInfos
unfolding infos_of
get_peer_p2p_infos reg = elim reg.me [
  | none ↦ record { from_peer = none; to_peers = [] }
  | some p ↦ record { from_peer = some p.infos; to_peers = infos_of reg (values reg.peers) }
]

-- `parseUDPAddr`
unfoldable pub parse_udp_addr : Resolver → Text → Option (IpAddr × ℕ)
parse_udp_addr env socket = elim (env.split_host_port socket) [
  | none ↦ none
  | some (host, port) ↦
      if env.parse_ip host == [] then none else some (env.parse_ip host, env.lookup_port port)
]

-- `Peer.UDPAddr().String()`
abbrev pub socket_of : Resolver → PeerInfo → Text
socket_of env infos = env.udp_string (parse_udp_addr env infos.pub_socket)

abbrev pub write_peer : Ref → Peer → PeerRegistry → PeerRegistry
write_peer ref p reg = record reg { heap = λ q. if nat_beq q ref then p else reg.heap q }

-- `GetPeer`
unfoldable pub get_peer : PeerRegistry → Text → Result Error Ref
get_peer reg mac = or_fail Error.peer_not_found (get mac reg.peers)

-- `GetPeerBySocket`
unfoldable pub get_peer_by_socket : Resolver → PeerRegistry → Option (IpAddr × ℕ) → Result Error Ref
get_peer_by_socket env reg none = err Error.nil_socket
get_peer_by_socket env reg (some addr) =
    or_fail Error.peer_not_found (get (env.udp_string (some addr)) reg.peer_by_socket)

-- The peer that `AddPeer` puts in place of one that it knows.
abbrev pub replaced : Resolver → PeerInfo → Peer → Peer
replaced env infos p =
    let reset =
      if not (p.infos.virtual_ip == infos.virtual_ip)
        || not (p.infos.pub_socket == infos.pub_socket)
      then record p { p2p_status = p2p_unknown; p2p_check_id = [] }
      else p in
    record reset { infos = infos; updated_at = env.now }

replace_peer : Resolver → PeerInfo → Ref → Reg Ref
replace_peer env infos ref reg =
    let old = reg.heap ref in
    (
      ok ref,
      record (write_peer ref (replaced env infos old) reg) {
        peer_by_socket =
            put (socket_of env infos) ref (remove (socket_of env old.infos) reg.peer_by_socket);
        has_pending_changes = true;
      },
    )

abbrev pub fresh_peer : Resolver → PeerInfo → Peer
fresh_peer env infos = record {
  infos = infos;
  p2p_status = p2p_unknown;
  is_full_duplex = false;
  p2p_check_id = [];
  pending_ttl = 0;
  updated_at = env.now;
}

insert_peer : Resolver → PeerInfo → Reg Ref
insert_peer env infos reg = (
  ok reg.next_ref,
  record (write_peer reg.next_ref (fresh_peer env infos) reg) {
    next_ref = suc reg.next_ref;
    peers = put (mac_string infos.mac_addr) reg.next_ref reg.peers;
    peer_by_socket = put (socket_of env infos) reg.next_ref reg.peer_by_socket;
    has_pending_changes = true;
  },
)

-- `AddPeer`
unfoldable pub add_peer : Resolver → PeerInfo → Bool → Reg Ref
unfolding replace_peer insert_peer
add_peer env infos overwrite reg = elim (get (mac_string infos.mac_addr) reg.peers) [
  | none ↦ insert_peer env infos reg
  | some ref ↦ if overwrite then replace_peer env infos ref reg else (err Error.peer_exists, reg)
]

-- `RemovePeer`, which never fails.
unfoldable pub remove_peer : Resolver → Text → PeerRegistry → PeerRegistry
remove_peer env mac reg = elim (get mac reg.peers) [
  | none ↦ reg
  | some ref ↦ record reg {
    peers = remove mac reg.peers;
    peer_by_socket = remove (socket_of env (reg.heap ref).infos) reg.peer_by_socket;
    has_pending_changes = true;
  }
]

with_status : ℕ → PeerRegistry → List Ref → List Ref
with_status status reg [] = []
with_status status reg (ref ∷ refs) =
    let rest = with_status status reg refs in
    if nat_beq (reg.heap ref).p2p_status status then ref ∷ rest else rest

-- `GetP2PUnknownPeers` and `GetP2PAvailablePeers`
unfoldable pub get_peers_with : ℕ → PeerRegistry → List Ref
unfolding with_status
get_peers_with status reg = with_status status reg (values reg.peers)

pending_from : Resolver → List Ref → PeerRegistry → List Ref × PeerRegistry
pending_from env [] reg = ([], reg)
pending_from env (ref ∷ refs) reg =
    let p = reg.heap ref in
    let pending = nat_beq p.p2p_status p2p_pending in
    let gone = write_peer ref (update_p2p_status env.now p2p_unavailable [] p).1 reg in
    let rest = pending_from env refs (if pending && ltb p.pending_ttl 1 then gone else reg) in
    if pending && ltb 0 p.pending_ttl then (ref ∷ rest.0, rest.1) else rest

-- `GetP2PendingPeers`
unfoldable pub get_p2_pending_peers : Resolver → PeerRegistry → List Ref × PeerRegistry
unfolding pending_from
get_p2_pending_peers env reg = pending_from env (values reg.peers) reg

add_peers : Resolver → Bool → List PeerInfo → Reg (Unit {0})
add_peers env overwrite [] reg = (ok tt, reg)
add_peers env overwrite (infos ∷ rest) reg =
    and_then (add_peer env infos overwrite reg) (λ ref. add_peers env overwrite rest)

remove_peers : Resolver → List PeerInfo → PeerRegistry → PeerRegistry
remove_peers env [] reg = reg
remove_peers env (infos ∷ rest) reg =
    remove_peers env rest (remove_peer env (mac_string infos.mac_addr) reg)

-- Whether a peer with that address is listed.
unfoldable pub is_listed : Text → List PeerInfo → Bool
is_listed mac [] = false
is_listed mac (infos ∷ rest) = mac_string infos.mac_addr == mac || is_listed mac rest

-- The loop over the registry's peers that removes those that are not listed.
prune : Resolver → List PeerInfo → List Text → PeerRegistry → PeerRegistry
prune env listed [] reg = reg
prune env listed (mac ∷ macs) reg =
    let removed = remove_peer env mac reg in
    prune env listed macs (if is_listed mac listed then reg else removed)

prune_all : Resolver → List PeerInfo → Reg (Unit {0})
unfolding prune
prune_all env listed reg = (ok tt, prune env listed (keys reg.peers) reg)

abbrev pub set_me : Resolver → PeerInfoList → PeerRegistry → PeerRegistry
set_me env l reg = elim l.origin [
  | none ↦ reg
  | some infos ↦ if l.has_origin then record reg { me = some (fresh_peer env infos) } else reg
]

abbrev pub reset_peers : Bool → PeerRegistry → PeerRegistry
reset_peers reset reg = if reset then record reg { peers = []; peer_by_socket = [] } else reg

handle_list : Resolver → PeerInfoList → Bool → Bool → Reg (Unit {0})
unfolding add_peers prune_all
handle_list env l reset overwrite reg =
    and_then (add_peers env overwrite l.peer_infos (set_me env l (reset_peers reset reg)))
      (λ _ t. if reset then (ok tt, t) else prune_all env l.peer_infos t)

-- `HandlePeerInfoList`. The event type, a uint32, is cut to 8 bits; an origin that is announced and
-- missing is a nil pointer.
unfoldable pub handle_peer_info_list : Resolver → PeerInfoList → Bool → Bool → Reg (Unit {0})
unfolding handle_list remove_peers add_peers
handle_peer_info_list env l reset overwrite reg =
    let event = l.event_type % 256 in
    if nat_beq event event_list
    then (if l.has_origin && not (is_some l.origin)
        then (err Error.panic, reset_peers reset reg)
        else handle_list env l reset overwrite reg)
    else if nat_beq event event_register
    then add_peers env overwrite l.peer_infos reg
    else if nat_beq event event_unregister
    then (ok tt, remove_peers env l.peer_infos reg)
    else (err Error.unknown_event, reg)
