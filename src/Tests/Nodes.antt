-- ===== src/Tests/Nodes.antt =====
-- Runs of the supernode.
use n2n_go.Base.{
  ◌≡◌, refl, sym, subst, ◌∙◌, ◌↔◌, ◌⊎◌, inl, true, false, Option, none, some, [], ◌∷◌, ◌++◌, arith,
  if◌then◌else◌, is_some, drop,
}
use n2n_go.Base.Exec.{state_of, result_of, err, ok}
use n2n_go.Base.Keys.{text_beq, Text, text_eq, nat_eq}
use n2n_go.Base.Maps.{get, put}
use n2n_go.Errors.{Error}
use n2n_go.Machine.Mac.{ext_generate_mac_with, ext_generate_mac, not_sip_hash24}
use n2n_go.Net.{ip_equal, addr_to_ip, udp, addr_to_port}
use n2n_go.Protocol.Datagram.{pack}
use n2n_go.Protocol.Datagram.RoundTrip.{unpack-pack}
use n2n_go.Protocol.Fuze.{v_fuze_packet_dest_mac_addr, version_v_fuze}
use n2n_go.Protocol.Hash.{hash_community}
use n2n_go.Protocol.Header.{
  version_v, has_src_mac_addr, get_src_mac_addr, has_dst_mac_addr, bytes_to_mac, get_dst_mac_addr,
}
use n2n_go.Protocol.Mac.{HardwareAddr, mac_string}
use n2n_go.Protocol.Message.{RawMessage, new_raw_message, edge_mac_addr, dest_mac_addr}
use n2n_go.Protocol.Spec.{type_ping, type_retry_register_request}
use n2n_go.Supernode.Cleanup.{remove_stale}
use n2n_go.Supernode.Cleanup.Counting.{remove_stale_lem}
use n2n_go.Supernode.Community.{
  write_edge, get_edge, heartbeat_port, refreshed, unregister, refresh_edge, edge_update,
  heartbeat_ip,
}
use n2n_go.Supernode.Community.Leave.{unregister_lem, HasLeft}
use n2n_go.Supernode.Community.Refresh.{IsRefreshed, refresh_edge_ok}
use n2n_go.Supernode.Community.Update.{IsMember, edge_update_ok}
use n2n_go.Supernode.Forward.{forward_unicast}
use n2n_go.Supernode.Forward.Isolation.{forward_unicast_lem}
use n2n_go.Supernode.Handlers.{handle_v_fuze}
use n2n_go.Supernode.Handlers.Fuze.{handle_v_fuze_lem}
use n2n_go.Supernode.Network.{propose_virtual_network}
use n2n_go.Supernode.Process.{count_processed, process_packet}
use n2n_go.Supernode.Process.Safe.{process_packet_short}
use n2n_go.Supernode.Process.Strangers.{outsiders_refused, IsStranger}
use n2n_go.Supernode.Registration.{
  unregister_edge, register_community, finish_register_community, register_edge,
  get_community_for_edge, validate_edge_claimed_mac_addr,
}
use n2n_go.Supernode.Registration.Claims.{validate_exact, register_edge_ok}
use n2n_go.Supernode.Registration.Race.{finish_register_community_stale, register_community_keeps}
use n2n_go.Supernode.Registration.Unregister.{unregister_edge_lem, Departed}
use n2n_go.Supernode.State.{Supernode, add_u64, Ref, Sent, Community}
use n2n_go.Supernode.State.Messages.{RegisterRequest}
use n2n_go.Supernode.Wire.{addr_string, is_empty, broadcast, write_packet}
use n2n_go.Supernode.Wire.Broadcast.{IsBroadcast, broadcast-IsBroadcast}
use n2n_go.Supernode.Wire.Writes.{write_to, of_option, forward_to, emit?}
use n2n_go.Tests.Fixtures.{
  header_from, all_bytes_sound, header_from-IsHeader, two_edges, sample_env, lan_community,
  empty_supernode, bob, message_from, carol, machine_id, lan, alice, lan_id,
}

abbrev sample_request : RegisterRequest
sample_request = record {
  edge_mac_addr = mac_string alice;
  edge_desc = 97 ∷ [];
  community_name = lan;
  encrypted_machine_id = machine_id;
  clear_machine_id = [];
}

mac_is_alice : ext_generate_mac lan machine_id ≡ ok alice
unfolding ext_generate_mac ext_generate_mac_with not_sip_hash24
mac_is_alice = refl

abbrev from_alice : RawMessage
from_alice = message_from alice bob type_ping

lan_stored : get lan_id two_edges.communities ≡ some lan_community
unfolding get
lan_stored = refl

alice_listed : get (mac_string alice) lan_community.edges ≡ some 0
unfolding get mac_string text_beq
alice_listed = refl

alice_inside : get (edge_mac_addr from_alice) lan_community.edges ≡ some 0
unfolding get mac_string text_beq edge_mac_addr has_src_mac_addr get_src_mac_addr bytes_to_mac
alice_inside = refl

bob_addressed : get (dest_mac_addr from_alice) lan_community.edges ≡ some 1
unfolding get mac_string text_beq dest_mac_addr has_dst_mac_addr get_dst_mac_addr bytes_to_mac
bob_addressed = refl

carol_outside : get (edge_mac_addr (message_from carol bob type_ping)) lan_community.edges ≡ none
unfolding get mac_string text_beq edge_mac_addr has_src_mac_addr get_src_mac_addr bytes_to_mac
carol_outside = refl

alice_found : get_community_for_edge two_edges (mac_string alice) lan_id ≡ ok lan_community
unfolding get mac_string text_beq get_community_for_edge get_edge
alice_found = refl

broadcast-IsBroadcast_example :
    IsBroadcast sample_env
      (1 ∷ 2 ∷ [])
      (mac_string alice)
      lan_community
      two_edges
      (broadcast sample_env (1 ∷ 2 ∷ []) lan_community (mac_string alice) two_edges)
broadcast-IsBroadcast_example =
    broadcast-IsBroadcast sample_env (1 ∷ 2 ∷ []) (mac_string alice) lan_community two_edges

abbrev after_registration : Supernode
after_registration = state_of (register_edge sample_env from_alice sample_request empty_supernode)

alice_registers :
    register_edge sample_env from_alice sample_request empty_supernode
    ≡ (ok (0, lan_id), after_registration)
unfolding register_edge validate_edge_claimed_mac_addr ext_generate_mac ext_generate_mac_with
    not_sip_hash24 register_community finish_register_community propose_virtual_network
    hash_community edge_update edge_mac_addr text_beq mac_string has_src_mac_addr get_src_mac_addr
    get bytes_to_mac put
alice_registers = refl

register_edge_ok_example :
    ((id : Text) × (mac : HardwareAddr) × (sample_env.decrypt sample_request.encrypted_machine_id
        ≡ some id)
      × (ext_generate_mac lan id ≡ ok mac)
      × (mac_string mac ≡ edge_mac_addr from_alice))
    × (lan_id ≡ hash_community lan)
    × (lan_id ≡ lan_id)
    × IsMember sample_env from_alice lan lan_id 0 after_registration
register_edge_ok_example =
    register_edge_ok sample_env from_alice sample_request empty_supernode alice_registers

validate_exact_example :
    (validate_edge_claimed_mac_addr sample_env (mac_string alice) machine_id lan ≡ ok machine_id)
    ↔ ((sample_env.decrypt machine_id ≡ some machine_id)
        × (mac : HardwareAddr) × (ext_generate_mac lan machine_id ≡ ok mac)
        × (mac_string mac ≡ mac_string alice))
validate_exact_example = validate_exact sample_env (mac_string alice) machine_id lan machine_id

abbrev carol_ping : RawMessage
carol_ping = message_from carol bob type_ping

abbrev after_carol : Supernode
after_carol = state_of (
    write_packet sample_env type_retry_register_request [] [] [] (udp (192 ∷ 0 ∷ 2 ∷ 1 ∷ []) 7000)
      (count_processed two_edges))

carol-IsStranger : IsStranger carol_ping two_edges
carol-IsStranger cm found =
    let same : lan_community ≡ cm = (let both = sym lan_stored ∙ found in ground arith) in
    subst (λ (c : Community). get (edge_mac_addr carol_ping) c.edges ≡ none) same carol_outside

carol_read : new_raw_message carol_ping.raw_packet (udp (192 ∷ 0 ∷ 2 ∷ 1 ∷ []) 7000) ≡ ok carol_ping
unfolding new_raw_message
carol_read =
    let fits =
      header_from-IsHeader carol bob type_ping (omega arith) (all_bytes_sound carol refl)
        (all_bytes_sound bob refl) in
    rw (unpack-pack (header_from carol bob type_ping) (5 ∷ []) fits) refl

outsiders_refused_example :
    (process_packet sample_env carol_ping.raw_packet (udp (192 ∷ 0 ∷ 2 ∷ 1 ∷ []) 7000) two_edges
      ≡ (ok tt, after_carol))
    × ((o : Option Sent) × (after_carol ≡ emit? o (count_processed two_edges)))
unfolding pack
outsiders_refused_example =
    outsiders_refused sample_env version_v (drop 1 carol_ping.raw_packet) (192 ∷ 0 ∷ 2 ∷ 1 ∷ [])
      7000 carol_ping two_edges refl carol_read (inl refl) carol-IsStranger

forward_unicast_example :
    let o = forward_to sample_env [] from_alice.raw_packet (two_edges.heap 1) in
    ((state_of (forward_unicast sample_env from_alice two_edges)).sent ≡ [] ++ of_option o)
    × (result_of (forward_unicast sample_env from_alice two_edges)
        ≡ (if is_some o then ok tt else err Error.forward_failed))
forward_unicast_example =
    forward_unicast_lem sample_env from_alice lan_community 0 1 two_edges lan_stored alice_inside
      bob_addressed

abbrev fuze_to_bob : Text
fuze_to_bob = version_v_fuze ∷ bob ++ 5 ∷ []

handle_v_fuze_example :
    ((handle_v_fuze sample_env fuze_to_bob (udp [] 7000) two_edges).sent ≡ [])
    ⊎ ((dst : HardwareAddr) × (to_edge : Ref) × (from_edge : Ref) × (true ≡ true)
        × (v_fuze_packet_dest_mac_addr fuze_to_bob ≡ ok dst)
        × (get (mac_string dst) two_edges.edges_by_mac ≡ some to_edge)
        × (get (addr_string sample_env (udp [] 7000)) two_edges.edges_by_socket ≡ some from_edge)
        × ((two_edges.heap to_edge).community ≡ (two_edges.heap from_edge).community)
        × ((handle_v_fuze sample_env fuze_to_bob (udp [] 7000) two_edges).sent
            ≡ [] ++ of_option (write_to sample_env [] fuze_to_bob (two_edges.heap to_edge))))
handle_v_fuze_example = handle_v_fuze_lem sample_env fuze_to_bob (udp [] 7000) two_edges

unregister_edge_example :
    Departed sample_env lan_id
      (edge_mac_addr from_alice)
      (get (edge_mac_addr from_alice) two_edges.edges_by_mac)
      (unregister_edge sample_env from_alice two_edges)
unregister_edge_example =
    unregister_edge_lem sample_env from_alice two_edges lan_community 0 lan_stored alice_inside

unregister_example :
    (t : Supernode) × (unregister sample_env lan_id lan_community (mac_string alice) two_edges
      ≡ (true, t))
    × HasLeft lan_id lan_community (mac_string alice) two_edges t
unregister_example =
    unregister_lem sample_env lan_id lan_community (mac_string alice) two_edges 0 alice_listed

abbrev after_update : Supernode
after_update =
    state_of (edge_update sample_env lan_id lan_community from_alice [] machine_id two_edges)

alice_updates :
    edge_update sample_env lan_id lan_community from_alice [] machine_id two_edges
    ≡ (ok 0, after_update)
unfolding edge_update edge_mac_addr text_beq mac_string has_src_mac_addr get_src_mac_addr get
    bytes_to_mac
alice_updates = refl

edge_update_ok_example : IsMember sample_env from_alice lan lan_id 0 after_update
edge_update_ok_example =
    edge_update_ok sample_env lan_id lan_community from_alice [] machine_id two_edges lan_stored
      alice_updates

register_community_keeps_example :
    get_community_for_edge
      (state_of (register_community sample_env lan lan_id two_edges))
      (mac_string alice)
      lan_id
    ≡ ok lan_community
register_community_keeps_example =
    register_community_keeps sample_env lan (mac_string alice) lan_id lan_id two_edges alice_found

abbrev after_stale : Supernode
after_stale = state_of (finish_register_community sample_env lan lan_id none two_edges)

stale_succeeds :
    finish_register_community sample_env lan lan_id none two_edges ≡ (ok lan_id, after_stale)
unfolding finish_register_community propose_virtual_network
stale_succeeds = refl

finish_register_community_stale_example :
    get_community_for_edge after_stale (mac_string alice) lan_id ≡ err Error.unknown_edge
finish_register_community_stale_example =
    finish_register_community_stale sample_env lan (mac_string alice) lan_id two_edges
      stale_succeeds

remove_stale_example :
    ((remove_stale sample_env lan_id lan_community (mac_string alice) two_edges).0 ≡ ok tt)
    × ((remove_stale sample_env lan_id lan_community
          (mac_string alice)
          two_edges).1.stats.edges_unregistered
        ≡ add_u64 (add_u64 0 1) 1)
    × (get_community_for_edge
          (remove_stale sample_env lan_id lan_community (mac_string alice) two_edges).1
          (mac_string alice)
          lan_id
        ≡ err Error.unknown_edge)
remove_stale_example =
    remove_stale_lem sample_env lan_id lan_community (mac_string alice) two_edges 0 0 lan_stored
      alice_listed alice_listed

process_packet_short_example :
    process_packet sample_env [] (udp [] 7000) two_edges
    ≡ (if is_empty [] then err Error.panic else ok tt, count_processed two_edges)
process_packet_short_example =
    process_packet_short sample_env [] (udp [] 7000) two_edges (omega arith) refl

heartbeat_accepted :
    refresh_edge sample_env lan_community machine_id from_alice two_edges
    ≡ (ok false, write_edge 0 (refreshed sample_env from_alice (two_edges.heap 0)) two_edges)
unfolding refresh_edge edge_mac_addr has_src_mac_addr get_src_mac_addr bytes_to_mac get mac_string
    text_beq heartbeat_ip heartbeat_port ip_equal addr_to_ip addr_to_port
heartbeat_accepted = refl

refresh_edge_ok_example :
    (ref : Ref) × (get (edge_mac_addr from_alice) lan_community.edges ≡ some ref)
    × ((two_edges.heap ref).machine_id ≡ machine_id)
    × IsRefreshed sample_env from_alice ref false two_edges
        (write_edge 0 (refreshed sample_env from_alice (two_edges.heap 0)) two_edges)
refresh_edge_ok_example =
    refresh_edge_ok sample_env lan_community machine_id from_alice two_edges heartbeat_accepted
