-- ===== src/Tests/Edges.antt =====
-- Runs of edges.
use n2n_go.Base.{
  ℕ, zero, suc, ◌*◌, ◌≤◌, ◌<◌, ◌≡◌, refl, sym, ap, ◌∙◌, true, false, Option, none, some, [], ◌∷◌,
  ◌++◌, arith, nat_beq, if◌then◌else◌, length, drop, replicate,
}
use n2n_go.Base.Exec.{state_of, ok}
use n2n_go.Base.Keys.{Text, text_beq, text_eq, nat_eq}
use n2n_go.Base.Maps.{get, Map}
use n2n_go.Edge.Api.{wait_for_community_datas_update, Wait}
use n2n_go.Edge.Api.Bounded.{wait_ends}
use n2n_go.Edge.Handlers.{
  handle_register_response_message, handle_retry_register_request, handle_sn_public_secret_message,
}
use n2n_go.Edge.Handlers.Handshake.{HasRegistered, HasAsked, reregisters}
use n2n_go.Edge.Listen.{crashes, count_received, handle_udp, read_from, goes_on}
use n2n_go.Edge.Listen.Stale.{short_payload_unchecked, empty_after_fuze}
use n2n_go.Edge.Peers.{states_heard, peer_updated, handle_ping_message}
use n2n_go.Edge.Peers.Heard.{states_heard_lem}
use n2n_go.Edge.Pings.{check_id_for, ping_peer}
use n2n_go.Edge.Pings.Reach.{HasPinged, ping_then_pong}
use n2n_go.Edge.Receive.Frames.{delivered}
use n2n_go.Edge.Requests.{
  request_sn_public_key, encrypted_machine_id, registration, is_waiting, request_register,
  to_supernode,
}
use n2n_go.Edge.Requests.Asked.{to_supernode_ok}
use n2n_go.Edge.Requests.Register.{request_register_accepted, AgreeOnRegistration}
use n2n_go.Edge.State.{
  EdgeMessage, EdgeSent, register_request, UdpAddr, EdgeEnv, ack, EdgeClient, written,
}
use n2n_go.Edge.Tap.{send_frame, outgoing}
use n2n_go.Edge.Tap.Tunnel.{AreTwins, frame_arrives}
use n2n_go.Edge.Wire.{
  udp_addr_with_strategy, transmit, send_v_fuze, header_of, send_edge_struct, edge_header,
}
use n2n_go.Edge.Wire.Headers.{HasMac}
use n2n_go.Edge.Wire.Packets.{IsSentTo}
use n2n_go.Edge.Wire.Sends.{packet_of, route}
use n2n_go.Machine.Mac.{net_generate_mac, generate_mac, not_sip_hash24, ext_generate_mac_with}
use n2n_go.Net.{nil_addr}
use n2n_go.P2p.Peer.{PeerP2PInfos}
use n2n_go.P2p.Registry.{Resolver, PeerRegistry}
use n2n_go.P2p.Status.{
  update_p2p_status, p2p_available, p2p_unknown, p2p_unavailable, p2p_pending, Peer,
}
use n2n_go.P2p.Viz.{ConnectionType, VizDatas, new_community_p2p_viz_datas, no_p2p}
use n2n_go.P2p.Viz.Grey.{viz_no_p2p}
use n2n_go.Protocol.Datagram.{pack}
use n2n_go.Protocol.Datagram.RoundTrip.{IsHeader}
use n2n_go.Protocol.Fuze.{fuze_header, v_fuze_header_bytes}
use n2n_go.Protocol.Hash.{hash_community}
use n2n_go.Protocol.Header.{
  bytes_to_mac, copy_id, has_src_mac_addr, copy_dest, is_from_supernode, get_src_mac_addr,
}
use n2n_go.Protocol.Mac.{HardwareAddr, mac_string, is_nil}
use n2n_go.Protocol.Message.{
  message_from_packet, RawMessage, community_hash, Message, to_message, edge_mac_addr,
}
use n2n_go.Protocol.Spec.{
  type_sn_public_secret, type_register_request, type_retry_register_request, type_ack,
  type_register_response, type_data, type_ping,
}
use n2n_go.Supernode.Registration.{validate_edge_claimed_mac_addr}
use n2n_go.Supernode.State.{Env}
use n2n_go.Supernode.State.Messages.{RegisterRequest}
use n2n_go.Tests.Fixtures.{
  header_from-IsHeader, machine_id, message_from, sample_env, all_bytes_sound, bob, header_from,
  alice, lan,
}
use n2n_go.Transform.{aes_gcm_transform, aes_gcm_apply, prepare_output, parse_input, Aead}
use n2n_go.Transform.Pipeline.{aes_gcm-IsReversible, parse_input-prepare_output, IsReversible}
use n2n_go.Tuntap.Arp.{to4, gratuitous_arp, arp_frame}
use n2n_go.Tuntap.Arp.Shape.{IsAnnouncement, gratuitous_arp_ok}
use n2n_go.Tuntap.Frame.{
  fast_ethertype, fast_destination, fast_tagging_type, overwrite, is_broadcast, get_ethertype,
}

abbrev sample_resolver : Resolver
sample_resolver = record {
  now = 50;
  split_host_port = λ t. none;
  parse_ip = λ t. t;
  lookup_port = λ t. 0;
  udp_string = λ a. [];
}

abbrev edge_env : EdgeEnv
edge_env = record {
  resolver = sample_resolver;
  now_unix = 99;
  random = λ i n. some (replicate n 7);
  udp_write = λ packet ip port. written;
  wss_write = λ packet. written;
  tap_write = λ frame. written;
  tap_up = λ ip. true;
  tap_hardware_addr = alice;
  raw_write = λ frame. true;
  encrypt = λ key clear. some (9 ∷ clear);
  parse_public_key = λ pem. some pem;
  parse_mac = λ t. none;
  check_id = λ id mac peer socket. id ++ peer;
  cidr_string = λ ip mask. ip ++ 47 ∷ mask ∷ [];
  marshal = λ m. some (0x61 ∷ []);
  unmarshal_sn_public_secret = λ t. some (record { is_request = false; pem_data = 4 ∷ [] });
  unmarshal_register_response =
      λ t. some (record { is_register_ok = true; virtual_ip = 10 ∷ []; masklen = 24 });
  unmarshal_unregister = λ t. none;
  unmarshal_peer_info_list = λ t. none;
  unmarshal_leases_infos = λ t. none;
  unmarshal_p2p_infos = λ t. none;
  unmarshal_p2p_full_state = λ t. none;
  unmarshal_ping = λ t. none;
  unmarshal_online_check = λ t. none;
  unmarshal_ice_candidate = λ t. none;
  unmarshal_turn_credentials = λ t. none;
}

-- A cipher that only adds a tag of sixteen bytes.
abbrev tagging : Aead
tagging = record {
  nonce_size = 12;
  seal = λ nonce plain. replicate 16 5 ++ plain;
  unseal = λ nonce sealed. some (drop 16 sealed);
}

abbrev bob_peer : Peer
bob_peer = record {
  infos = record { virtual_ip = []; mac_addr = bob; pub_socket = []; community = lan; desc = [] };
  p2p_status = p2p_unknown;
  is_full_duplex = false;
  p2p_check_id = [];
  pending_ttl = 0;
  updated_at = 0;
}

abbrev one_peer : PeerRegistry
one_peer = record {
  community_name = lan;
  me = none;
  peers = (mac_string bob, 0) ∷ [];
  peer_by_socket = [];
  heap = λ r. bob_peer;
  next_ref = 1;
  reachables = none;
  unreachables = none;
  is_waiting_community_datas = false;
  has_pending_changes = false;
}

abbrev edge_with : HardwareAddr → EdgeClient
edge_with mac = record {
  peers = one_peer;
  id = 97 ∷ [];
  community = lan;
  supernode_addr = some (192 ∷ 0 ∷ 2 ∷ 9 ∷ [], 7777);
  has_conn = true;
  has_wss = false;
  seq = 0;
  enable_v_fuze = true;
  virtual_ip = [];
  parsed_virtual_ip = [];
  mac_addr = mac;
  machine_id = machine_id;
  unregister_done = false;
  packets_sent = 0;
  packets_recv = 0;
  eapi = none;
  sn_pub_key = some (3 ∷ []);
  registered = true;
  is_waiting_for_sn_pub_key_update = false;
  is_waiting_for_sn_retry_register_response = false;
  payload_processor = record { transforms = aes_gcm_transform tagging ∷ [] };
  sent = [];
  tap_frames = [];
  arp_frames = [];
}

-- An IPv4 frame from alice to bob.
abbrev hello : Text
hello = bob ++ (alice ++ (8 ∷ 0 ∷ replicate 20 1))

-- What the transforms make of it.
abbrev sealed : Text
sealed = replicate 12 7 ++ (replicate 16 5 ++ hello)

tagging-IsReversible : IsReversible (aes_gcm_transform tagging)
tagging-IsReversible = aes_gcm-IsReversible tagging (λ nonce plain. refl)

length-replicate : (x n : ℕ) → length (replicate n x) ≡ n
length-replicate x zero = refl
length-replicate x (suc n) = ap (λ (k : ℕ). suc k) (length-replicate x n)

random_sized : (i n : ℕ) (bytes : Text) → edge_env.random i n ≡ some bytes → length bytes ≡ n
random_sized i n bytes drawn =
    let same : replicate n 7 ≡ bytes = cc in
    ap (λ (t : Text). length t) (sym same) ∙ length-replicate 7 n

alice-HasMac : HasMac (edge_with alice)
alice-HasMac = record { size = refl; bytes = all_bytes_sound alice refl }

alice-bob-AreTwins : AreTwins edge_env (edge_with alice) (edge_with bob)
alice-bob-AreTwins = record {
  processor = refl;
  reversible = (tagging-IsReversible, tt);
  fast_path = refl;
  writes = λ frame. refl;
}

abbrev after_hello : EdgeClient
after_hello = state_of (outgoing edge_env hello 34 (edge_with alice))

parse_input-prepare_output_example : parse_input (edge_with bob).payload_processor sealed ≡ ok hello
unfolding prepare_output aes_gcm_apply
parse_input-prepare_output_example =
    parse_input-prepare_output edge_env.random (edge_with bob).payload_processor hello sealed
      random_sized (tagging-IsReversible, tt) refl

frame_arrives_example :
    (x : EdgeSent) × (after_hello.sent ≡ x ∷ [])
    × ((addr : UdpAddr) (buf : Text)
        → length (packet_of x) ≤ length buf
        → handle_udp edge_env (read_from (packet_of x) addr) buf (edge_with bob) ≡ (
          goes_on,
          overwrite buf (packet_of x),
          delivered hello (count_received (edge_with bob)),
        ))
unfolding prepare_output aes_gcm_apply outgoing get_ethertype fast_tagging_type fast_ethertype
    fast_destination send_frame is_broadcast send_v_fuze udp_addr_with_strategy mac_string
    v_fuze_header_bytes transmit get text_beq
frame_arrives_example =
    frame_arrives edge_env edge_env hello 34 (edge_with alice) (edge_with bob) alice-HasMac
      (all_bytes_sound hello refl) alice-bob-AreTwins (λ single. refl) random_sized refl refl refl
      (omega arith) refl

-- A short data packet from nobody.
abbrev forged : Text
forged = 1 ∷ 2 ∷ 3 ∷ []

abbrev room : Text
room = replicate 100 0

incoming-IsHeader : (kind : ℕ) → kind < 256 → IsHeader (header_from bob alice kind)
incoming-IsHeader kind small =
    header_from-IsHeader bob alice kind small (all_bytes_sound bob refl)
      (all_bytes_sound alice refl)

short_payload_unchecked_example :
    handle_udp edge_env
      (read_from (pack (header_from bob alice type_data) forged) none)
      room
      (edge_with alice)
    ≡ (
      goes_on,
      overwrite room (pack (header_from bob alice type_data) forged),
      delivered forged (count_received (edge_with alice)),
    )
unfolding pack
short_payload_unchecked_example =
    short_payload_unchecked edge_env (header_from bob alice type_data) forged room none
      (edge_with alice) (incoming-IsHeader type_data (omega arith)) refl (omega arith) refl
      (omega arith)

empty_after_fuze_example :
    (handle_udp edge_env
      (read_from [] none)
      (overwrite room (fuze_header alice ++ forged))
      (edge_with alice)).0
    ≡ crashes
empty_after_fuze_example =
    empty_after_fuze edge_env forged room none (edge_with alice) refl refl (omega arith)

to_supernode_ok_example :
    (payload : Text) × (edge_env.marshal ack ≡ some payload)
    × IsSentTo
        (edge_with alice)
        type_ack
        (edge_with alice).supernode_addr
        payload
        (state_of (to_supernode edge_env ack (edge_with alice)))
unfolding send_edge_struct udp_addr_with_strategy edge_header header_of hash_community copy_id
    copy_dest transmit pack
to_supernode_ok_example = to_supernode_ok edge_env ack (edge_with alice) alice-HasMac refl

-- A codec for what alice sends: the encrypted id is all that varies.
abbrev encoded_message : EdgeMessage → Option Text
encoded_message (register_request m) = some m.encrypted_machine_id
encoded_message m = some []

abbrev alice_env : EdgeEnv
alice_env = record edge_env { marshal = encoded_message }

abbrev accepting : Env
accepting = record sample_env {
  decrypt = λ t. some (drop 1 t);
  unmarshal_register = λ t. some (registration (edge_with alice) t);
}

accepting-AgreeOnRegistration : AgreeOnRegistration alice_env accepting (edge_with alice) (3 ∷ [])
accepting-AgreeOnRegistration = record {
  decrypts = λ enc made.
      ap (λ (t : Text). some (drop 1 t)) (let same : (9 ∷ machine_id) ≡ enc = cc in sym same);
  decodes = λ enc encoded made.
      let same : enc ≡ encoded = cc in
      ap (λ (t : Text). some (registration (edge_with alice) t)) (sym same);
}

abbrev after_register : EdgeClient
after_register = state_of (request_register alice_env (edge_with alice))

request_register_accepted_example :
    (x : EdgeSent) × (packet : Text) × (m : Message RegisterRequest) × (after_register.sent
      ≡ x ∷ [])
    × (route false (edge_with alice).supernode_addr packet ≡ some x)
    × (message_from_packet type_register_request accepting.unmarshal_register packet nil_addr
        ≡ ok m)
    × (edge_mac_addr m.raw ≡ mac_string alice)
    × (community_hash m.raw ≡ hash_community m.msg.community_name)
    × (validate_edge_claimed_mac_addr accepting
          (edge_mac_addr m.raw)
          m.msg.encrypted_machine_id
          m.msg.community_name
        ≡ ok machine_id)
unfolding generate_mac ext_generate_mac_with net_generate_mac not_sip_hash24 request_register
    encrypted_machine_id send_edge_struct udp_addr_with_strategy edge_header copy_id copy_dest
    transmit
request_register_accepted_example =
    request_register_accepted alice_env accepting (edge_with alice) (3 ∷ []) nil_addr refl refl
      accepting-AgreeOnRegistration refl

abbrev retry : RawMessage
retry = message_from bob alice type_retry_register_request

abbrev after_retry : EdgeClient
after_retry = state_of (handle_retry_register_request edge_env retry (edge_with alice))

abbrev secret : RawMessage
secret = message_from bob alice type_sn_public_secret

abbrev after_secret : EdgeClient
after_secret = state_of (handle_sn_public_secret_message edge_env secret after_retry)

abbrev consent : RawMessage
consent = message_from bob alice type_register_response

reregisters_example :
    let back = state_of (handle_register_response_message edge_env consent after_secret) in
    HasAsked edge_env (edge_with alice) after_retry
    × HasRegistered edge_env secret after_retry after_secret
    × (is_waiting back ≡ false)
    × (back.registered ≡ true)
    × (back.sn_pub_key ≡ after_secret.sn_pub_key)
unfolding handle_retry_register_request handle_sn_public_secret_message to_message
    request_sn_public_key request_register encrypted_machine_id send_edge_struct
    udp_addr_with_strategy edge_header copy_id copy_dest transmit
reregisters_example =
    reregisters edge_env edge_env edge_env retry secret consent (edge_with alice)
      (record {
        raw = consent;
        msg = record { is_register_ok = true; virtual_ip = 10 ∷ []; masklen = 24 };
      })
      alice-HasMac refl refl refl refl refl

abbrev pong : RawMessage
pong = message_from bob alice type_ping

-- alice, who reaches everybody over a WSS connection.
abbrev wired : EdgeClient
wired = record (edge_with alice) { has_wss = true }

abbrev bob_check_id : Text
bob_check_id = check_id_for edge_env wired bob_peer

abbrev answering : EdgeEnv
answering = record edge_env {
  unmarshal_ping = λ t. some (record { is_pong = true; check_id = bob_check_id });
}

abbrev after_ping : EdgeClient
after_ping = state_of (ping_peer edge_env 0 3 p2p_pending wired)

ping_then_pong_example :
    let p = (state_of (handle_ping_message answering pong after_ping)).peers.heap 0 in
    HasPinged edge_env wired bob_check_id after_ping
    × (p.p2p_status ≡ p2p_available)
    × (p.is_full_duplex ≡ true)
unfolding edge_mac_addr get text_beq mac_string has_src_mac_addr get_src_mac_addr bytes_to_mac
    is_from_supernode ping_peer send_edge_struct udp_addr_with_strategy edge_header copy_id
    copy_dest transmit update_p2p_status to_message peer_updated
ping_then_pong_example =
    ping_then_pong edge_env answering pong 0 3 p2p_pending wired
      (record { raw = pong; msg = record { is_pong = true; check_id = bob_check_id } })
      (record { size = refl; bytes = all_bytes_sound alice refl }) (all_bytes_sound bob refl) refl
      (omega arith) refl refl refl refl

abbrev bob_report : PeerP2PInfos
bob_report = record { from_peer = some bob_peer.infos; to_peers = bob_peer.infos ∷ [] }

states_heard_lem_example :
    let p = (states_heard edge_env (mac_string bob) bob_report one_peer).heap 0 in
    (p.p2p_status ≡ (if nat_beq 0 0 then p2p_unavailable else p2p_available)) × (p.pending_ttl ≡ 0)
unfolding mac_string get text_beq
states_heard_lem_example =
    states_heard_lem edge_env (mac_string bob) (mac_string bob) bob_report one_peer 0 refl refl

abbrev never : Wait
never = record { answered = λ k. false; elapsed = λ k. suc k * 300 }

wait_ends_example :
    (sleeps : ℕ) × (wait_for_community_datas_update never 3000 12 true ≡ some sleeps)
    × (sleeps ≤ 11)
wait_ends_example = wait_ends never 3000 true (λ k. omega arith)

abbrev seen_peers : Map Text PeerP2PInfos
seen_peers =
    ((97 ∷ []), record { from_peer = some bob_peer.infos; to_peers = bob_peer.infos ∷ [] }) ∷ []

viz_no_p2p_example :
    (d : VizDatas) × (new_community_p2p_viz_datas (108 ∷ []) seen_peers ≡ ok d)
    × ((pair : Text) (state : ConnectionType) → get pair d.p2p_states ≡ some state → state ≡ no_p2p)
viz_no_p2p_example = viz_no_p2p (108 ∷ []) seen_peers

abbrev announced : Text
announced = arp_frame alice (10 ∷ 0 ∷ 0 ∷ 5 ∷ [])

gratuitous_arp_ok_example :
    (is_nil (to4 (10 ∷ 0 ∷ 0 ∷ 5 ∷ [])) ≡ false)
    × (6 ≤ length alice)
    × IsAnnouncement alice (to4 (10 ∷ 0 ∷ 0 ∷ 5 ∷ [])) announced
unfolding gratuitous_arp to4
gratuitous_arp_ok_example = gratuitous_arp_ok (10 ∷ 0 ∷ 0 ∷ 5 ∷ []) alice refl
