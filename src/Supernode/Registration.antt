-- ===== src/Supernode/Registration.antt =====
-- pkg/supernode/registration.go: which edge belongs to which community, and who may say so.
pub mod Claims
pub mod Unregister
pub mod Race
use n2n_go.Base.{
  ℕ, Bool, true, false, not, Option, none, some, [], ◌∷◌, nat_beq, if◌then◌else◌, is_some,
}
use n2n_go.Base.Exec.{ok, and_then, state_of, err, or_fail, Result, ◌>>=◌}
use n2n_go.Base.Keys.{Text, ◌==◌, text_eq, nat_eq}
use n2n_go.Base.Maps.{get, remove}
use n2n_go.Errors.{Error}
use n2n_go.Machine.Mac.{ext_generate_mac}
use n2n_go.P2p.Peer.{event_unregister}
use n2n_go.Protocol.Hash.{hash_community}
use n2n_go.Protocol.Mac.{mac_string}
use n2n_go.Protocol.Message.{edge_mac_addr, RawMessage}
use n2n_go.Supernode.Community.{set_community, get_edge, edge_update, unregister, peer_info}
use n2n_go.Supernode.Network.{propose_virtual_network}
use n2n_go.Supernode.State.{Sn, Ref, Supernode, Edge, Env, Prefix, add_u64, Community}
use n2n_go.Supernode.State.Messages.{Reply, peer_info_list, RegisterRequest}
use n2n_go.Supernode.Wire.{broadcast_struct}
use mathlib.Core.Option

-- What a `*Community` that was found as `cm` points to by now.
abbrev pub deref : ℕ → Community → Supernode → Community
deref h cm s = Option.get_or (get h s.communities) cm

-- `NewCommunityWithConfig`
new_community : Env → Text → Prefix → Result Error Community
new_community env name subnet =
    if env.pool_ready subnet
    then ok (record {
      name = name;
      subnet = subnet;
      mask_len = subnet.bits;
      p2p_infos = [];
      edges = [];
    })
    else err Error.no_address_pool

add_community : ℕ → Community → Sn ℕ
add_community h cm s = (ok h, set_community h cm s)

-- The part of `RegisterCommunity` under the write lock. `found` is what was read before, under the
-- read lock, and is not read again.
unfoldable pub finish_register_community : Env → Text → ℕ → Option Community → Sn ℕ
unfolding new_community add_community
finish_register_community env name h (some cm) s =
    if cm.name == name then (ok h, s) else (err Error.community_name_taken, s)
finish_register_community env name h none s =
    and_then (propose_virtual_network env s.net_allocator name, s)
      λ prefix. λ t. and_then (new_community env name prefix, t) (λ cm. add_community h cm)

-- `RegisterCommunity`; the community is returned as its key.
unfoldable pub register_community : Env → Text → ℕ → Sn ℕ
register_community env name h s =
    if not (nat_beq h (hash_community name))
    then (err Error.wrong_community_hash, s)
    else finish_register_community env name h (get h s.communities) s

-- `GetCommunityForEdge` and `GetCommunity`
unfoldable pub get_community_for_edge : Supernode → Text → ℕ → Result Error Community
get_community_for_edge s mac h = elim (get h s.communities) [
  | none ↦ err Error.community_not_found
  | some cm ↦ if is_some (get_edge s cm mac) then ok cm else err Error.unknown_edge
]

abbrev pub get_community : Supernode → RawMessage → Result Error Community
get_community s r = get_community_for_edge s (edge_mac_addr r) r.header.community_id

-- `ValidateEdgeClaimedMACAddr`: the machine id, if the claimed address is the one it generates.
unfoldable pub validate_edge_claimed_mac_addr : Env → Text → Text → Text → Result Error Text
validate_edge_claimed_mac_addr env claimed_mac encrypted_id community_name = do
  machine_id ← or_fail Error.decrypt_failed (env.decrypt encrypted_id)
  computed_mac ← ext_generate_mac community_name machine_id
  if mac_string computed_mac == claimed_mac then ok machine_id else err Error.mac_mismatch

-- `Stats.EdgesRegistered.Add(1)` and `EdgesUnregistered.Add(1)`
abbrev pub count_registered : Supernode → Supernode
count_registered s = record s {
  stats = record s.stats { edges_registered = add_u64 s.stats.edges_registered 1 };
}

abbrev pub count_unregistered : Supernode → Supernode
count_unregistered s = record s {
  stats = record s.stats { edges_unregistered = add_u64 s.stats.edges_unregistered 1 };
}

counted : ℕ → Ref → Sn (Ref × ℕ)
counted h ref s = (ok (ref, h), count_registered s)

-- `RegisterEdge`: the edge and the key of its community. An empty entry stands for a community
-- that is not there, which `register_community` has excluded.
unfoldable pub register_edge : Env → RawMessage → RegisterRequest → Sn (Ref × ℕ)
unfolding counted
register_edge env r m s =
    and_then
      (
        validate_edge_claimed_mac_addr env (edge_mac_addr r) m.encrypted_machine_id
            m.community_name,
        s,
      )
      λ machine_id. λ t.
        and_then (register_community env m.community_name r.header.community_id t) λ h. λ u.
          and_then (or_fail Error.panic (get h u.communities), u)
            λ cm.
              λ v. and_then (edge_update env h cm r m.edge_desc machine_id v) (λ ref. counted h ref)

-- `newPeerInfoEvent`
unfoldable pub new_peer_info_event : Env → ℕ → Edge → Reply
new_peer_info_event env event e = peer_info_list (record {
  has_origin = false;
  origin = none;
  peer_infos = peer_info env e ∷ [];
  event_type = event;
})

forget_edge : Env → Text → Edge → Supernode → Supernode
forget_edge env mac e s = count_unregistered (record s {
  edges_by_socket = remove (env.socket_string e.public_ip e.public_port) s.edges_by_socket;
  edges_by_mac = remove mac s.edges_by_mac;
})

-- `onEdgeUnregistered`: an edge that the supernode's own map does not have is a nil pointer.
unfoldable pub on_edge_unregistered : Env → ℕ → Community → Text → Sn (Unit {0})
unfolding forget_edge
on_edge_unregistered env h cm mac s = elim (get mac s.edges_by_mac) [
  | none ↦ (err Error.panic, s)
  | some ref ↦
      let e = s.heap ref in
      (
        ok tt,
        state_of (
            broadcast_struct env (new_peer_info_event env event_unregister e) (deref h cm s) [] mac
              (forget_edge env mac e s)),
      )
]

unregistered_then :
    Env → ℕ → Community → Text → Bool × Supernode → Result Error (Unit {0}) × Supernode
unregistered_then env h cm mac (true, s) = on_edge_unregistered env h cm mac s
unregistered_then env h cm mac (false, s) = (ok tt, s)

-- `UnregisterEdge`
unfoldable pub unregister_edge : Env → RawMessage → Sn (Unit {0})
unfolding unregistered_then
unregister_edge env r s =
    and_then (get_community s r, s)
      λ cm. λ t.
        let h = r.header.community_id in
        let mac = edge_mac_addr r in unregistered_then env h cm mac (unregister env h cm mac t)
