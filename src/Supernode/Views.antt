-- ===== src/Supernode/Views.antt =====
-- pkg/supernode/community.go and registration.go: what is read off a community for an answer or for
-- the cleanup, without a change.
use n2n_go.Base.{
  ℕ, ◌-◌, Bool, true, false, not, ◌||◌, Option, none, some, List, [], ◌∷◌, ◌++◌, ltb, if◌then◌else◌,
}
use n2n_go.Base.Exec.{ok, Result, err}
use n2n_go.Base.Keys.{◌==◌, Text, text_eq, nat_eq}
use n2n_go.Base.Maps.{values, Map, get, put}
use n2n_go.Errors.{Error}
use n2n_go.Net.{udp, Addr}
use n2n_go.P2p.Peer.{event_list, PeerInfoList, P2PFullState, PeerCachedInfo}
use n2n_go.Supernode.Community.{peer_info}
use n2n_go.Supernode.State.{Env, Edge, Supernode, Community, EdgeCachedInfos}
use n2n_go.Supernode.State.Messages.{LeaseEdgeInfos, LeaseWithEdgeInfos, IppoolLease}
use n2n_go.Supernode.Wire.{all_edges}

offline_entry : Env → Text → EdgeCachedInfos → PeerCachedInfo
offline_entry env community v = record {
  desc = v.desc;
  mac_addr = v.mac_addr;
  virtual_ip = env.vip_string v.virtual_ip;
  community = community;
  last_update_ns = env.now - v.updated_at;
}

offline_from : Env → Text → List EdgeCachedInfos → Map Text PeerCachedInfo
unfolding offline_entry
offline_from env community [] = []
offline_from env community (v ∷ vs) =
    let rest = offline_from env community vs in
    if not (v.community == community) || v.is_registered
    then rest
    else put v.mac_addr (offline_entry env community v) rest

-- `GetOfflineCachedEdges` of registration.go
unfoldable pub get_offline_cached_edges : Env → Community → Supernode → Map Text PeerCachedInfo
unfolding offline_from
get_offline_cached_edges env cm s = offline_from env cm.name (values s.edge_cached_infos)

-- `GetCommunityPeerP2PInfosDatas`
unfoldable pub get_community_peer_p2p_infos_datas :
    Env → Community → Text → Supernode → Result Error P2PFullState
get_community_peer_p2p_infos_datas env cm mac s = elim (get mac cm.edges) [
  | none ↦ err Error.edge_not_in_community
  | some _ ↦ ok (record {
    community_name = cm.name;
    is_request = false;
    reachables = cm.p2p_infos;
    unreachables = get_offline_cached_edges env cm s;
  })
]

-- One turn of the loop of `GetPeerInfoList`.
add_peer_info : Env → Text → Bool → Edge → PeerInfoList → PeerInfoList
add_peer_info env req_mac full e l =
    if e.mac_addr == req_mac
    then (if full then record l { origin = some (peer_info env e); has_origin = true } else l)
    else record l { peer_infos = l.peer_infos ++ peer_info env e ∷ [] }

add_peer_infos : Env → Text → Bool → List Edge → PeerInfoList → PeerInfoList
unfolding add_peer_info
add_peer_infos env req_mac full [] l = l
add_peer_infos env req_mac full (e ∷ es) l =
    add_peer_infos env req_mac full es (add_peer_info env req_mac full e l)

-- `GetPeerInfoList`
unfoldable pub get_peer_info_list : Env → Community → Text → Bool → Supernode → PeerInfoList
unfolding add_peer_infos
get_peer_info_list env cm req_mac full s =
    add_peer_infos env req_mac full (all_edges s cm)
      (record { has_origin = false; origin = none; peer_infos = []; event_type = event_list })

-- `GetEdgeUDPAddr`
unfoldable pub get_edge_udp_addr : Supernode → Community → Text → Result Error Addr
get_edge_udp_addr s cm mac = elim (get mac cm.edges) [
  | none ↦ err Error.edge_not_in_community
  | some r ↦ ok (udp (s.heap r).public_ip (s.heap r).public_port)
]

stale_from : ℕ → ℕ → List Edge → List Text
stale_from now expiry [] = []
stale_from now expiry (e ∷ es) =
    let rest = stale_from now expiry es in
    if ltb expiry (now - e.last_heartbeat) then e.mac_addr ∷ rest else rest

-- `GetStaleEdgeIDs`
unfoldable pub get_stale_edge_ids : Env → ℕ → Supernode → Community → List Text
unfolding stale_from
get_stale_edge_ids env expiry s cm = stale_from env.now expiry (all_edges s cm)

lease_edge_infos : Env → Option EdgeCachedInfos → LeaseEdgeInfos
lease_edge_infos env none = record {
  -- "unknown"
  edge_id = 117 ∷ 110 ∷ 107 ∷ 110 ∷ 111 ∷ 119 ∷ 110 ∷ [];
  is_registered = false;
  time_since_last_update_ns = none;
  virtual_ip = [];
}
lease_edge_infos env (some c) = record {
  edge_id = c.desc;
  is_registered = c.is_registered;
  time_since_last_update_ns = some (env.now - c.updated_at);
  virtual_ip = c.virtual_ip;
}

leases_from : Env → Supernode → Map Text IppoolLease → Map Text LeaseWithEdgeInfos
unfolding lease_edge_infos
leases_from env s [] = []
leases_from env s ((k, v) ∷ rest) =
    (k, record { lease = v; lease_edge_infos = lease_edge_infos env (get k s.edge_cached_infos) })
    ∷ leases_from env s rest

-- `GetLeasesWithEdgesInfos`
unfoldable pub get_leases_with_edges_infos :
    Env → Community → Supernode → Map Text LeaseWithEdgeInfos
unfolding leases_from
get_leases_with_edges_infos env cm s = leases_from env s (env.all_leases cm.subnet)
