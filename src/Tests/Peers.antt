-- ===== src/Tests/Peers.antt =====
-- Runs of the peers' registry.
use n2n_go.Base.{
  ℕ, ◌≡◌, refl, true, false, none, some, List, [], ◌∷◌, arith, ltb, if◌then◌else◌, is_some, length,
  replicate,
}
use n2n_go.Base.Exec.{state_of, ok}
use n2n_go.Base.Keys.{Text, text_eq, nat_eq}
use n2n_go.Base.Maps.{get}
use n2n_go.P2p.Peer.{event_list, PeerInfoList, PeerInfo}
use n2n_go.P2p.Registry.{
  is_listed, add_peer, fresh_peer, Resolver, PeerRegistry, handle_peer_info_list,
}
use n2n_go.P2p.Registry.Lifetime.{AllAlive}
use n2n_go.P2p.Registry.Listing.{handle_list_exact}
use n2n_go.P2p.Status.{p2p_unavailable, p2p_pending, update_p2p_status, Peer}
use n2n_go.P2p.Status.Expiry.{probes, probes_lem, expiry_unreported}
use n2n_go.Protocol.Mac.{mac_string, HardwareAddr}
use n2n_go.Tests.Fixtures.{carol, lan, bob, alice}

abbrev sample_resolver : Resolver
sample_resolver = record {
  now = 5;
  split_host_port = λ t. some (t, []);
  parse_ip = λ t. t;
  lookup_port = λ t. 7000;
  udp_string = λ a. elim a [ none ↦ 60 ∷ [] | some (ip, port) ↦ port ∷ ip ];
}

abbrev infos_of_peer : HardwareAddr → Text → PeerInfo
infos_of_peer mac socket = record {
  virtual_ip = [];
  mac_addr = mac;
  pub_socket = socket;
  community = lan;
  desc = [];
}

abbrev bob_infos : PeerInfo
bob_infos = infos_of_peer bob (4 ∷ [])

abbrev empty_registry : PeerRegistry
empty_registry = record {
  community_name = lan;
  me = none;
  peers = [];
  peer_by_socket = [];
  heap = λ r. fresh_peer sample_resolver bob_infos;
  next_ref = 0;
  reachables = none;
  unreachables = none;
  is_waiting_community_datas = false;
  has_pending_changes = false;
}

abbrev two_listed : PeerInfoList
two_listed = record {
  has_origin = false;
  origin = none;
  peer_infos = bob_infos ∷ infos_of_peer carol (5 ∷ []) ∷ [];
  event_type = event_list;
}

-- A registry that knows only alice.
abbrev with_alice : PeerRegistry
with_alice = state_of (add_peer sample_resolver (infos_of_peer alice (6 ∷ [])) true empty_registry)

handle_list_exact_example :
    (t : PeerRegistry) × (handle_peer_info_list sample_resolver two_listed false true with_alice
      ≡ (ok tt, t))
    × (is_some (get (mac_string alice) t.peers)
        ≡ is_listed (mac_string alice) two_listed.peer_infos)
handle_list_exact_example =
    handle_list_exact sample_resolver two_listed false with_alice (mac_string alice) refl refl

alice_added :
    add_peer sample_resolver (infos_of_peer alice (6 ∷ [])) true empty_registry ≡ (ok 0, with_alice)
unfolding add_peer get
alice_added = refl

unknown_alive : AllAlive empty_registry
unknown_alive ref h = absurd (ground arith)

abbrev unknown_peer : Peer
unknown_peer = fresh_peer sample_resolver bob_infos

abbrev tries : List (ℕ × Text)
tries = replicate 31 (5, 1 ∷ [])

probes_example :
    (probes tries unknown_peer).p2p_status
    ≡ (if ltb (length tries) 31 then p2p_pending else p2p_unavailable)
probes_example = probes_lem tries unknown_peer refl (omega arith)

abbrev last_try : Peer
last_try = record unknown_peer { p2p_status = p2p_pending; pending_ttl = 1 }

expiry_unreported_example :
    ((update_p2p_status 9 p2p_pending [] last_try).0 ≡ false)
    × ((update_p2p_status 9 p2p_pending [] last_try).1.p2p_status
        ≡ (if ltb 1 1 then p2p_pending else p2p_unavailable))
expiry_unreported_example = expiry_unreported 9 [] last_try refl
