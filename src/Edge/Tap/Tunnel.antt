-- ===== src/Edge/Tap/Tunnel.antt =====
-- From one host to another: what pkg/edge/routines.go reads from the TAP device of one edge comes to
-- that of the other.
-- What an edge writes for a frame: a datagram of its own, or a packet of the fast path.
use n2n_go.Base.{
  ℕ, ◌≤◌, ◌≡◌, refl, sym, ap, subst, ◌∙◌, inl, inr, true, false, some, [], ◌∷◌, ◌++◌, arith,
  Bool-cases, length, take, drop, length-take, All,
}
use n2n_go.Base.Bytes.{take-IsBytes, IsBytes}
use n2n_go.Base.Exec.{Result, result_of, ok, state_of}
use n2n_go.Base.Keys.{Text}
use n2n_go.Edge.Listen.{receive_packet, read_from, goes_on, count_received, handle_udp, turn_of}
use n2n_go.Edge.Listen.Delivery.{receive_data, take_fits, receive_fuze, overwrite_fits}
use n2n_go.Edge.Receive.{handle_data_payload, min_gcm_size, padded}
use n2n_go.Edge.Receive.Frames.{delivered, handle_data_payload_long}
use n2n_go.Edge.State.{UdpAddr, EdgeClient, EdgeEnv, written, EdgeSent}
use n2n_go.Edge.Tap.{is_ipv6, send_frame, outgoing}
use n2n_go.Edge.Wire.{write_edge_packet, send_v_fuze, enforce_supernode, Strategy, best_effort}
use n2n_go.Edge.Wire.Headers.{HasMac, IsEdgeHeader}
use n2n_go.Edge.Wire.Packets.{write_edge_packet_ok, send_v_fuze_ok}
use n2n_go.Edge.Wire.Sends.{packet_of, route-packet_of}
use n2n_go.Errors.{Error}
use n2n_go.Protocol.Datagram.{pack}
use n2n_go.Protocol.Fuze.{fuze_header_bytes, fuze_header}
use n2n_go.Protocol.Header.{ProtoVHeader}
use n2n_go.Protocol.Mac.{HardwareAddr}
use n2n_go.Protocol.Spec.{type_data}
use n2n_go.Transform.{PayloadProcessor, prepare_output, parse_input}
use n2n_go.Transform.Pipeline.{IsReversible, parse_input-prepare_output}
use n2n_go.Tuntap.Frame.{
  get_ethertype, fast_destination, is_broadcast, overwrite, min_frame_size, Ethertype,
}

data IsCarrier (e : EdgeClient) (dst : HardwareAddr) (payload : Text) : Text → Type 0 where
  datagram :
      (h : ProtoVHeader) → IsEdgeHeader e type_data h → IsCarrier e dst payload (pack h payload)
  fast :
      e.enable_v_fuze ≡ true
      → is_broadcast dst ≡ false
      → IsCarrier e dst payload (fuze_header dst ++ payload)

module _ (env : EdgeEnv) (dst : HardwareAddr) (payload : Text) (e : EdgeClient) (t : EdgeClient)
    (mac : HasMac e) (bytes : IsBytes dst) where
  abbrev Carried : Type 0
  Carried = (x : EdgeSent) × (t.sent ≡ e.sent ++ x ∷ []) × IsCarrier e dst payload (packet_of x)

  by_datagram :
      (strategy : Strategy)
      → write_edge_packet env type_data dst payload strategy e ≡ (ok tt, t)
      → Carried
  by_datagram strategy run =
      let (socket, towards, sent) =
        write_edge_packet_ok env type_data dst payload strategy e mac bytes (omega arith) run in
      (
        sent.write,
        sent.appended,
        subst (IsCarrier e dst payload)
            (sym (route-packet_of e.has_wss socket (pack sent.header payload) sent.routed))
            (datagram sent.header sent.names_edge),
      )

  by_fuze :
      length dst ≡ 6
      → e.enable_v_fuze ≡ true
      → is_broadcast dst ≡ false
      → send_v_fuze env dst payload best_effort e ≡ (ok tt, t)
      → Carried
  by_fuze six on single run =
      let (socket, header, x, towards, made, routed, appended) =
        send_v_fuze_ok env dst payload best_effort e run in
      let same : header ≡ fuze_header dst =
        (let both = sym made ∙ fuze_header_bytes dst six in cc) in
      (
        x,
        appended,
        subst (IsCarrier e dst payload)
            (ap (λ (h : Text). h ++ payload) (sym same)
              ∙ sym (route-packet_of e.has_wss socket (header ++ payload) routed))
            (fast on single),
      )

  to_all :
      is_broadcast dst ≡ true
      → send_frame env dst payload e
        ≡ write_edge_packet env type_data dst payload enforce_supernode e
  unfolding send_frame
  to_all all = simp all

  to_one_fast :
      is_broadcast dst ≡ false
      → e.enable_v_fuze ≡ true
      → send_frame env dst payload e ≡ send_v_fuze env dst payload best_effort e
  unfolding send_frame
  to_one_fast single on = simp (single, on)

  to_one :
      is_broadcast dst ≡ false
      → e.enable_v_fuze ≡ false
      → send_frame env dst payload e ≡ write_edge_packet env type_data dst payload best_effort e
  unfolding send_frame
  to_one single off = simp (single, off)

  carried : length dst ≡ 6 → send_frame env dst payload e ≡ (ok tt, t) → Carried
  carried six run = elim (Bool-cases (is_broadcast dst)) [
    | inl all ↦ by_datagram enforce_supernode (sym (to_all all) ∙ run)
    | inr single ↦ elim (Bool-cases e.enable_v_fuze) [
      | inl on ↦ by_fuze six on single (sym (to_one_fast single on) ∙ run)
      | inr off ↦ by_datagram best_effort (sym (to_one single off) ∙ run)
    ]
  ]

-- `outgoing` of a frame that is not IPv6 sends what the transforms make of it.
prepared :
    (env : EdgeEnv) (frame_buf : Text) (n : ℕ) (e : EdgeClient) {ethertype : Ethertype} {out : Text}
    → get_ethertype frame_buf ≡ ok ethertype
    → is_ipv6 ethertype ≡ false
    → prepare_output env.random e.payload_processor (take n frame_buf) ≡ ok out
    → outgoing env frame_buf n e ≡ send_frame env (fast_destination frame_buf) out e
unfolding outgoing
prepared env frame_buf n e typed other made = rw (typed, other, made) refl

-- The receiving edge has the transforms of the sending one, which are reversible, and the fast path just
-- where that one has it; its TAP device takes every frame.
pub record AreTwins (env_b : EdgeEnv) (a : EdgeClient) (b : EdgeClient) : Type 0 where
  pub processor : b.payload_processor ≡ a.payload_processor
  pub reversible : All IsReversible a.payload_processor.transforms
  pub fast_path : b.enable_v_fuze ≡ a.enable_v_fuze
  pub writes : (frame : Text) → env_b.tap_write frame ≡ written

module _ (env_b : EdgeEnv) (b : EdgeClient) (payload frame packet : Text) (addr : UdpAddr)
    (buf : Text) (fits : length packet ≤ length buf) where
  -- One turn of the receiving loop.
  received :
      ((rest : Text)
        → receive_packet env_b (packet ++ rest) (length packet) addr (count_received b)
          ≡ (ok tt, delivered frame (count_received b)))
      → handle_udp env_b (read_from packet addr) buf b
        ≡ (goes_on, overwrite buf packet, delivered frame (count_received b))
  unfolding handle_udp
  received comes =
      let turn : receive_packet env_b (overwrite buf packet) (length (take (length buf) packet))
            addr (count_received b)
          ≡ (ok tt, delivered frame (count_received b)) =
        rw (take_fits (length buf) packet fits, overwrite_fits buf packet fits)
          (comes (drop (length packet) buf)) in
      ap
        (λ (r : Result Error (Unit {0}) × EdgeClient).
          (turn_of (result_of r), overwrite buf packet, state_of r))
        turn

module _ (env_b : EdgeEnv) (a b : EdgeClient) (dst : HardwareAddr) (payload frame : Text)
    (twins : AreTwins env_b a b) (long : min_gcm_size ≤ length payload)
    (undone : parse_input a.payload_processor payload ≡ ok frame) where
  puts :
      handle_data_payload env_b payload (count_received b)
      ≡ (ok tt, delivered frame (count_received b))
  puts =
      handle_data_payload_long env_b (count_received b) payload frame long
        (ap (λ (p : PayloadProcessor). parse_input p payload) twins.processor ∙ undone)
        (twins.writes (padded frame))

  -- What carries a payload for an edge puts the frame on its TAP device.
  carrier_arrives :
      {packet : Text} (addr : UdpAddr) (buf : Text)
      → length dst ≡ 6
      → (is_broadcast dst ≡ false → b.mac_addr ≡ dst)
      → IsCarrier a dst payload packet
      → length packet ≤ length buf
      → handle_udp env_b (read_from packet addr) buf b
        ≡ (goes_on, overwrite buf packet, delivered frame (count_received b))
  carrier_arrives addr buf six own (datagram h named) fits =
      received env_b b payload frame (pack h payload) addr buf fits λ rest.
        receive_data env_b (count_received b) payload frame h addr rest named.fits named.typed puts
  carrier_arrives addr buf six own (fast on single) fits =
      let mine : b.mac_addr ≡ dst = own single in
      received env_b b payload frame (fuze_header dst ++ payload) addr buf fits λ rest.
        subst
          (λ (m : Text).
            receive_packet env_b ((fuze_header m ++ payload) ++ rest)
              (length (fuze_header m ++ payload)) addr (count_received b)
            ≡ (ok tt, delivered frame (count_received b)))
          mine
          (receive_fuze env_b (count_received b) payload frame addr rest
            (subst (λ (m : Text). length m ≡ 6) (sym mine) six) (twins.fast_path ∙ on) puts)

long_enough :
    (frame : Text) {t : Ethertype} → get_ethertype frame ≡ ok t → min_frame_size ≤ length frame
unfolding get_ethertype
long_enough frame typed = ground arith

-- A frame other than IPv6 that one edge sends off is one packet, a datagram or one of the fast path, and
-- that packet, read as it was sent and whatever the receiving edge's buffer held before, makes another
-- edge write the frame to its TAP device, padded to 60 bytes. The two edges have the same transforms,
-- which are reversible, and both have the fast path or neither has it; the payload that the transforms
-- make is 28 bytes or longer; a frame that is no broadcast is addressed to the receiving edge, whose TAP
-- device takes what is written. What a supernode in between changes, the flag of a datagram that it
-- relays, is not considered.
pub frame_arrives :
    (env_a env_b : EdgeEnv) (frame_buf : Text) (n : ℕ) (a b : EdgeClient) {ethertype : Ethertype}
    {payload : Text} {t : EdgeClient}
    → HasMac a
    → IsBytes frame_buf
    → AreTwins env_b a b
    → (is_broadcast (fast_destination frame_buf) ≡ false → b.mac_addr ≡ fast_destination frame_buf)
    → ((i k : ℕ) (bytes : Text) → env_a.random i k ≡ some bytes → length bytes ≡ k)
    → get_ethertype frame_buf ≡ ok ethertype
    → is_ipv6 ethertype ≡ false
    → prepare_output env_a.random a.payload_processor (take n frame_buf) ≡ ok payload
    → min_gcm_size ≤ length payload
    → outgoing env_a frame_buf n a ≡ (ok tt, t)
    → (x : EdgeSent) × (t.sent ≡ a.sent ++ x ∷ [])
      × ((addr : UdpAddr) (buf : Text)
          → length (packet_of x) ≤ length buf
          → handle_udp env_b (read_from (packet_of x) addr) buf b ≡ (
            goes_on,
            overwrite buf (packet_of x),
            delivered (take n frame_buf) (count_received b),
          ))
unfolding fast_destination
frame_arrives env_a env_b frame_buf n a b {ethertype} {payload} {t} mac bytes twins own sized typed
      other made long run =
    let six : length (take 6 frame_buf) ≡ 6 =
      length-take 6 frame_buf (omega (arith, long_enough frame_buf typed)) in
    let undone =
      parse_input-prepare_output env_a.random a.payload_processor (take n frame_buf) payload sized
        twins.reversible made in
    let (x, appended, carries) =
      carried env_a (take 6 frame_buf) payload a t mac (take-IsBytes 6 frame_buf bytes) six
        (sym (prepared env_a frame_buf n a typed other made) ∙ run) in
    (
      x,
      appended,
      λ addr buf fits.
          carrier_arrives env_b a b (take 6 frame_buf) payload (take n frame_buf) twins long undone
            addr buf six own carries fits,
    )
