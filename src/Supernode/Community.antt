-- ===== src/Supernode/Community.antt =====
-- pkg/supernode/community.go: the methods that change a community, and those that look an edge up.
-- One is called with the community's key `h` in the supernode's map and what stands there, `cm`.
pub mod Update
pub mod Leave
pub mod Refresh
use n2n_go.Base.{
  ℕ, suc, Bool, true, false, not, ◌||◌, Option, none, some, [], nat_beq, if◌then◌else◌, is_some,
}
use n2n_go.Base.Exec.{or_fail, err, and_then, ok}
use n2n_go.Base.Keys.{Text, ◌==◌, text_eq, nat_eq}
use n2n_go.Base.Maps.{get, remove, put}
use n2n_go.Errors.{Error}
use n2n_go.Net.{ip_equal, IpAddr, is_nil_addr, addr_to_ip, addr_to_port, Addr}
use n2n_go.P2p.Peer.{PeerInfo, PeerP2PInfos}
use n2n_go.Protocol.Message.{edge_mac_addr, RawMessage}
use n2n_go.Supernode.State.{Env, Ref, Community, Supernode, Sn, Edge}
use n2n_go.Supernode.Wire.{addr_string}
use mathlib.Core.Option

-- Writing through a `*Edge`, and making a new one.
abbrev pub write_edge : Ref → Edge → Supernode → Supernode
write_edge r e s = record s { heap = λ q. if nat_beq q r then e else s.heap q }

abbrev pub set_community : ℕ → Community → Supernode → Supernode
set_community h cm s = record s { communities = put h cm s.communities }

-- `SetEdgeCachedInfo` of registration.go
unfoldable pub set_edge_cached_info : Env → Text → Text → Text → Bool → Text → Supernode → Supernode
set_edge_cached_info env mac desc community registered vip s = record s {
  edge_cached_infos =
      put mac
        (record {
          mac_addr = mac;
          desc = desc;
          community = community;
          is_registered = registered;
          updated_at = env.now;
          virtual_ip = vip;
        })
        s.edge_cached_infos;
}

-- `GetEdge`: a copy of the edge.
unfoldable pub get_edge : Supernode → Community → Text → Option Edge
get_edge s cm mac = Option.map s.heap (get mac cm.edges)

-- `IsRegistered` and `Size`
pub is_registered : Community → Text → Bool
is_registered cm mac = is_some (get mac cm.edges)

-- `Edge.PeerInfo` of edge.go
unfoldable pub peer_info : Env → Edge → PeerInfo
peer_info env e = record {
  virtual_ip = env.vip_string e.virtual_ip;
  mac_addr = env.parse_mac e.mac_addr;
  pub_socket = env.pub_socket_string e.public_ip e.public_port;
  community = e.community;
  desc = e.desc;
}

-- `SetP2PInfosFor`
unfoldable pub set_p2p_infos_for : ℕ → Community → Text → PeerP2PInfos → Sn (Unit {0})
set_p2p_infos_for h cm mac infos s = elim (get mac cm.edges) [
  | none ↦ (err Error.edge_not_in_community, s)
  | some _ ↦ (ok tt, set_community h (record cm { p2p_infos = put mac infos cm.p2p_infos }) s)
]

-- `ResetP2PInfos`
unfoldable pub reset_p2p_infos : ℕ → Community → Supernode → Supernode
reset_p2p_infos h cm s = set_community h (record cm { p2p_infos = [] }) s

-- `Unregister`: the address stays leased to the edge.
unfoldable pub unregister : Env → ℕ → Community → Text → Supernode → Bool × Supernode
unregister env h cm mac s = elim (get mac cm.edges) [
  | none ↦ (false, s)
  | some r ↦ (
    true,
    set_community h (record cm { edges = remove mac cm.edges; p2p_infos = remove mac cm.p2p_infos })
        (set_edge_cached_info env mac (s.heap r).desc cm.name false (s.heap r).virtual_ip s),
  )
]

-- The public address and port that a heartbeat's sender is given.
unfoldable pub heartbeat_ip : Env → Addr → IpAddr
heartbeat_ip env from = elim (addr_to_ip from) [
  | some ip ↦ ip
  | none ↦ env.parse_ip (addr_string env from)
]

unfoldable pub heartbeat_port : Addr → ℕ
heartbeat_port from = elim (addr_to_port from) [ some port ↦ port | none ↦ 0 ]

-- What `RefreshEdge` writes to an edge.
abbrev pub refreshed : Env → RawMessage → Edge → Edge
refreshed env r edge = record edge {
  public_ip = heartbeat_ip env r.from_addr;
  public_port = heartbeat_port r.from_addr;
  last_heartbeat = env.now;
  last_sequence = r.header.sequence;
}

abbrev pub socket_changed : Edge → Edge → Bool
socket_changed old new =
    not (nat_beq old.public_port new.public_port) || not (ip_equal old.public_ip new.public_ip)

refresh_found : Env → Text → RawMessage → Ref → Sn Bool
refresh_found env clear_machine_id r ref s =
    let edge = s.heap ref in
    let edge' = refreshed env r edge in
    if not (clear_machine_id == edge.machine_id)
    then (err Error.machine_id_mismatch, s)
    else if is_nil_addr r.from_addr
    then (err Error.panic, s)
    else (ok (socket_changed edge edge'), write_edge ref edge' s)

-- `RefreshEdge`: whether the edge's socket changed. Printing a nil address panics.
unfoldable pub refresh_edge : Env → Community → Text → RawMessage → Sn Bool
unfolding refresh_found
refresh_edge env cm clear_machine_id r s = elim (get (edge_mac_addr r) cm.edges) [
  | none ↦ (err Error.edge_not_in_community, s)
  | some ref ↦ refresh_found env clear_machine_id r ref s
]

-- The public socket that a registration gives an edge: as the sender's address says, if it does.
abbrev pub with_socket : Addr → Edge → Edge
with_socket from e = record e {
  public_ip = Option.get_or (addr_to_ip from) e.public_ip;
  public_port = Option.get_or (addr_to_port from) e.public_port;
}

abbrev pub new_edge : Env → Community → RawMessage → Text → Text → Text → Edge
new_edge env cm r desc machine_id vip = with_socket r.from_addr (record {
  desc = desc;
  public_ip = [];
  public_port = 0;
  community = cm.name;
  virtual_ip = vip;
  vnet_mask_len = cm.mask_len;
  last_heartbeat = env.now;
  last_sequence = r.header.sequence;
  mac_addr = edge_mac_addr r;
  machine_id = machine_id;
  wss_conn_id = [];
})

insert_edge : Env → ℕ → Community → RawMessage → Edge → Sn Ref
insert_edge env h cm r e s =
    let ref = s.next_ref in
    (
      ok ref,
      set_edge_cached_info env (edge_mac_addr r) e.desc cm.name true e.virtual_ip (
          set_community h (record cm { edges = put (edge_mac_addr r) ref cm.edges })
            (write_edge ref e (record s { next_ref = suc ref }))),
    )

-- The branch of `EdgeUpdate` for a new edge.
register_new : Env → ℕ → Community → RawMessage → Text → Text → Sn Ref
unfolding insert_edge
register_new env h cm r desc machine_id s =
    and_then (or_fail Error.ip_allocation (env.request_ip cm.subnet (edge_mac_addr r)), s)
      λ nvip. λ t.
        and_then (or_fail Error.ip_parse (env.parse_addr nvip), t)
          (λ vip. insert_edge env h cm r (new_edge env cm r desc machine_id vip))

-- And for a known one: neither the description nor the machine id is updated.
register_known : Env → Community → RawMessage → Ref → Sn Ref
register_known env cm r ref s =
    let edge = s.heap ref in
    if not (cm.name == edge.community) then (err Error.community_mismatch, s) else (
      ok ref,
      write_edge ref
          (record (with_socket r.from_addr edge) {
            last_heartbeat = env.now;
            last_sequence = r.header.sequence;
          })
          s,
    )

-- `EdgeUpdate`
unfoldable pub edge_update : Env → ℕ → Community → RawMessage → Text → Text → Sn Ref
unfolding register_new register_known
edge_update env h cm r desc machine_id s = elim (get (edge_mac_addr r) cm.edges) [
  | none ↦ register_new env h cm r desc machine_id s
  | some ref ↦ register_known env cm r ref s
]
