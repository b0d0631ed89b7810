-- ===== src/P2p/Registry/Listing.antt =====
-- What the registry of pkg/p2p/p2p.go holds after a list of peers.
use n2n_go.Base.{
  ◌%◌, ◌≡◌, refl, sym, ap, ap₂, ◌∙◌, inl, inr, Bool, true, false, not, ◌&&◌, ◌||◌, none, some, List,
  [], ◌∷◌, arith, Bool-cases, Option-cases, is_some, drop,
}
use n2n_go.Base.Exec.{state_of, ok}
use n2n_go.Base.Keys.{text_beq_iff, ◌==◌, Text, text_eq, nat_eq}
use n2n_go.Base.Maps.{get, get-put, remove, keys, Map, put, get-remove}
use n2n_go.P2p.Peer.{PeerInfo, event_list, PeerInfoList}
use n2n_go.P2p.Registry.{
  Resolver, is_listed, handle_peer_info_list, remove_peer, add_peer, PeerRegistry, set_me,
  reset_peers, prune_all, handle_list, prune, add_peers, replace_peer, insert_peer,
}
use n2n_go.Protocol.Mac.{mac_string}
use n2n_go.Supernode.State.{Ref}

-- `GetPeer` finds a peer under the address.
abbrev has : Text → PeerRegistry → Bool
has mac reg = is_some (get mac reg.peers)

has-put :
    (m k : Text) (ref : Ref) (peers : Map Text Ref)
    → is_some (get m (put k ref peers)) ≡ (k == m || is_some (get m peers))
has-put m k ref peers = ground (arith, get-put k m ref peers, Bool-cases (k == m))

has-remove :
    (m k : Text) (peers : Map Text Ref)
    → is_some (get m (remove k peers)) ≡ (not (k == m) && is_some (get m peers))
has-remove m k peers = ground (arith, get-remove k m peers, Bool-cases (k == m))

same_key {ℓ} : {A : Type ℓ} (f : Text → A) (k m : Text) → (k == m) ≡ true → f k ≡ f m
same_key f k m hit = ap f ((text_beq_iff k m).0 hit)

has_known :
    (k m : Text) (ref : Ref) (peers : Map Text Ref)
    → get k peers ≡ some ref
    → is_some (get m peers) ≡ (k == m || is_some (get m peers))
has_known k m ref peers found = elim (Bool-cases (k == m)) [
  | inr other ↦ ground (arith, other)
  | inl hit ↦
      let here : get m peers ≡ some ref = sym (same_key (λ x. get x peers) k m hit) ∙ found in
      ground (arith, hit, here)
]

has_absent :
    (k m : Text) (peers : Map Text Ref)
    → get k peers ≡ none
    → is_some (get m peers) ≡ (not (k == m) && is_some (get m peers))
has_absent k m peers absent = elim (Bool-cases (k == m)) [
  | inr other ↦ ground (arith, other)
  | inl hit ↦
      let here : get m peers ≡ none = sym (same_key (λ x. get x peers) k m hit) ∙ absent in
      ground (arith, hit, here)
]

-- `AddPeer` with `overwrite` succeeds, and adds the address to those that are found.
add_peer-has :
    (env : Resolver) (infos : PeerInfo) (reg : PeerRegistry) (m : Text)
    → (ref : Ref) × (t : PeerRegistry) × (add_peer env infos true reg ≡ (ok ref, t))
      × (has m t ≡ (mac_string infos.mac_addr == m || has m reg))
unfolding add_peer replace_peer insert_peer
add_peer-has env infos reg m = elim (Option-cases (get (mac_string infos.mac_addr) reg.peers)) [
  | inl absent ↦ (
    reg.next_ref,
    state_of (insert_peer env infos reg),
    rw (add_peer, insert_peer, absent) refl,
    has-put m (mac_string infos.mac_addr) reg.next_ref reg.peers,
  )
  | inr (old, found) ↦ (
    old,
    state_of (replace_peer env infos old reg),
    rw (add_peer, replace_peer, found) refl,
    has_known (mac_string infos.mac_addr) m old reg.peers found,
  )
]

add_peers-has :
    (env : Resolver) (l : List PeerInfo) (reg : PeerRegistry) (m : Text)
    → (t : PeerRegistry) × (add_peers env true l reg ≡ (ok tt, t))
      × (has m t ≡ (is_listed m l || has m reg))
unfolding add_peers is_listed
add_peers-has env [] reg m = (reg, refl, refl)
add_peers-has env (infos ∷ rest) reg m =
    let (ref, t, added, here) = add_peer-has env infos reg m in
    let (u, done, there) = add_peers-has env rest t m in
    (
      u,
      rw added done,
      ground (
        arith,
        here,
        there,
        Bool-cases (mac_string infos.mac_addr == m),
        Bool-cases (is_listed m rest),
      ),
    )

remove_peer-has :
    (env : Resolver) (k m : Text) (reg : PeerRegistry)
    → has m (remove_peer env k reg) ≡ (not (k == m) && has m reg)
unfolding remove_peer
remove_peer-has env k m reg = elim (Option-cases (get k reg.peers)) [
  | inl absent ↦ rw (remove_peer, absent) (has_absent k m reg.peers absent)
  | inr (ref, found) ↦ rw (remove_peer, found) (has-remove m k reg.peers)
]

is_key : Text → List Text → Bool
is_key m [] = false
is_key m (k ∷ ks) = k == m || is_key m ks

has-keys : (m : Text) (peers : Map Text Ref) → is_key m (keys peers) ≡ is_some (get m peers)
unfolding is_key get
has-keys m [] = refl
has-keys m ((k, ref) ∷ rest) = ground (arith, has-keys m rest, Bool-cases (k == m))

prune-has :
    (env : Resolver) (l : List PeerInfo) (macs : List Text) (reg : PeerRegistry) (m : Text)
    → has m (prune env l macs reg) ≡ ((is_listed m l || not (is_key m macs)) && has m reg)
unfolding prune is_key
prune-has env l [] reg m = ground (arith, Bool-cases (is_listed m l))
prune-has env l (k ∷ macs) reg m = elim (Bool-cases (is_listed k l)) [
  | inl keep ↦
      let step = prune-has env l macs reg m in
      elim (Bool-cases (k == m)) [
        | inr other ↦ ground (arith, keep, step, other)
        | inl hit ↦
            let listed : is_listed m l ≡ true =
              sym (same_key (λ x. is_listed x l) k m hit) ∙ keep in
            ground (arith, keep, step, hit, listed)
      ]
  | inr drop ↦
      let step = prune-has env l macs (remove_peer env k reg) m in
      let gone = remove_peer-has env k m reg in
      elim (Bool-cases (k == m)) [
        | inr other ↦ ground (arith, drop, step, gone, other)
        | inl hit ↦
            let unlisted : is_listed m l ≡ false =
              sym (same_key (λ x. is_listed x l) k m hit) ∙ drop in
            ground (arith, drop, step, gone, hit, unlisted)
      ]
]

set_me-has :
    (env : Resolver) (l : PeerInfoList) (reg : PeerRegistry) (m : Text)
    → has m (set_me env l reg) ≡ has m reg
set_me-has env l reg m = elim (Option-cases l.origin) [
  | inl absent ↦ rw (set_me, absent) refl
  | inr (infos, there) ↦ elim (Bool-cases l.has_origin) [
    | inl announced ↦ rw (set_me, there, announced) refl
    | inr silent ↦ rw (set_me, there, silent) refl
  ]
]

list_event :
    (env : Resolver) (l : PeerInfoList) (reset : Bool) (reg : PeerRegistry)
    → l.event_type % 256 ≡ event_list
    → (l.has_origin && not (is_some l.origin)) ≡ false
    → handle_peer_info_list env l reset true reg ≡ handle_list env l reset true reg
unfolding handle_peer_info_list
list_event env l reset reg event origin = rw (handle_peer_info_list, event, origin) refl

only_listed : (a : Bool) → (a || false) ≡ a
only_listed true = refl
only_listed false = refl

kept_listed : (a b : Bool) → ((a || not (a || b)) && (a || b)) ≡ a
kept_listed true b = refl
kept_listed false true = refl
kept_listed false false = refl

-- A list event with `overwrite`, with `reset` or without, that has the origin if it announces one,
-- succeeds, and afterwards `GetPeer` finds a peer under exactly the addresses of the list.
pub handle_list_exact :
    (env : Resolver) (l : PeerInfoList) (reset : Bool) (reg : PeerRegistry) (m : Text)
    → l.event_type % 256 ≡ event_list
    → (l.has_origin && not (is_some l.origin)) ≡ false
    → (t : PeerRegistry) × (handle_peer_info_list env l reset true reg ≡ (ok tt, t))
      × (is_some (get m t.peers) ≡ is_listed m l.peer_infos)
unfolding handle_list prune_all get
handle_list_exact env l true reg m event origin =
    let start = set_me env l (reset_peers true reg) in
    let (u, added, found) = add_peers-has env l.peer_infos start m in
    (
      u,
      list_event env l true reg event origin ∙ rw (handle_list, added) refl,
      found
          ∙ ap (λ b. is_listed m l.peer_infos || b) (set_me-has env l (reset_peers true reg) m)
          ∙ only_listed (is_listed m l.peer_infos),
    )
handle_list_exact env l false reg m event origin =
    let start = set_me env l reg in
    let (u, added, found) = add_peers-has env l.peer_infos start m in
    (
      prune env l.peer_infos (keys u.peers) u,
      list_event env l false reg event origin ∙ rw (handle_list, added) refl,
      prune-has env l.peer_infos (keys u.peers) u m
          ∙ ap₂ (λ a b. (is_listed m l.peer_infos || not a) && b) (has-keys m u.peers ∙ found) found
          ∙ kept_listed (is_listed m l.peer_infos) (has m start),
    )
