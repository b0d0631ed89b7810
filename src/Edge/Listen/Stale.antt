-- ===== src/Edge/Listen/Stale.antt =====
-- Packets that the loops of pkg/edge/routines.go take badly.
use n2n_go.Base.{
  ℕ, ◌≤◌, ◌<◌, ◌≡◌, ap, ◌∙◌, true, false, none, some, [], ◌++◌, arith, length, take, drop,
}
use n2n_go.Base.Exec.{state_of, Result, result_of, err}
use n2n_go.Base.Keys.{Text, text_eq, nat_eq}
use n2n_go.Base.Maps.{get}
use n2n_go.Edge.Handlers.{handle_leases_infos_message}
use n2n_go.Edge.Listen.{
  handle_udp, receive_packet, read_from, Turn, crashes, goes_on, count_received, turn_of,
}
use n2n_go.Edge.Listen.Delivery.{receive_typed, overwrite_fits, take_fits, raw_of, receive_data}
use n2n_go.Edge.Peers.{edge_handlers}
use n2n_go.Edge.Receive.{padded, min_gcm_size}
use n2n_go.Edge.Receive.Frames.{handle_v_fuze_packet_short, handle_data_payload_short, delivered}
use n2n_go.Edge.State.{UdpAddr, EdgeEnv, written, EdgeClient}
use n2n_go.Errors.{Error}
use n2n_go.Protocol.Datagram.{pack}
use n2n_go.Protocol.Datagram.RoundTrip.{IsHeader}
use n2n_go.Protocol.Fuze.{fuze_header}
use n2n_go.Protocol.Header.{ProtoVHeader}
use n2n_go.Protocol.Message.{to_message, RawMessage}
use n2n_go.Protocol.Spec.{type_leases_infos, type_data}
use n2n_go.Supernode.State.Messages.{LeasesInfos}
use n2n_go.Tuntap.Frame.{overwrite}

module _ (env : EdgeEnv) (e : EdgeClient) (buf : Text) (addr : UdpAddr) where
  -- A turn of the loop, for a packet that fits the buffer.
  turn_fits :
      (packet : Text) {r : Result Error (Unit {0}) × EdgeClient}
      → length packet ≤ length buf
      → receive_packet env
          (packet ++ drop (length packet) buf)
          (length packet)
          addr
          (count_received e)
        ≡ r
      → handle_udp env (read_from packet addr) buf e
        ≡ (turn_of (result_of r), overwrite buf packet, state_of r)
  unfolding handle_udp
  turn_fits packet {r} fits comes =
      let turn : receive_packet env (overwrite buf packet) (length (take (length buf) packet)) addr
            (count_received e)
          ≡ r =
        rw (take_fits (length buf) packet fits, overwrite_fits buf packet fits) comes in
      ap
        (λ (q : Result Error (Unit {0}) × EdgeClient).
          (turn_of (result_of q), overwrite buf packet, state_of q))
        turn

-- Whatever transforms an edge has, also where it encrypts: a data packet of less than 28 bytes, from
-- anywhere and of any community, passes none of them: the frame that is written to the TAP device is
-- that payload, padded with zeros to 60 bytes as every frame is. The packet fits the buffer, its header
-- the wire, and the device takes the frame.
pub short_payload_unchecked :
    (env : EdgeEnv) (h : ProtoVHeader) (payload buf : Text) (addr : UdpAddr) (e : EdgeClient)
    → IsHeader h
    → h.packet_type ≡ type_data
    → length payload < min_gcm_size
    → env.tap_write (padded payload) ≡ written
    → length (pack h payload) ≤ length buf
    → handle_udp env (read_from (pack h payload) addr) buf e
      ≡ (goes_on, overwrite buf (pack h payload), delivered payload (count_received e))
short_payload_unchecked env h payload buf addr e fits typed short takes room =
    turn_fits env e buf addr (pack h payload) room (
      receive_data env (count_received e) payload payload h addr
        (drop (length (pack h payload)) buf) fits typed
        (handle_data_payload_short env (count_received e) payload payload short takes))

-- An empty datagram that follows a packet of the fast path for the edge makes its routine panic: the
-- loop looks at what the packet before left in the buffer.
pub empty_after_fuze :
    (env : EdgeEnv) (payload buf : Text) (addr : UdpAddr) (e : EdgeClient)
    → e.enable_v_fuze ≡ true
    → length e.mac_addr ≡ 6
    → length (fuze_header e.mac_addr ++ payload) ≤ length buf
    → (handle_udp env (read_from [] addr) (overwrite buf (fuze_header e.mac_addr ++ payload)) e).0
      ≡ crashes
unfolding receive_packet
empty_after_fuze env payload buf addr e on six fits =
    let packet = fuze_header e.mac_addr ++ payload in
    let rest = drop (length packet) buf in
    ap (λ (b : Text). (handle_udp env (read_from [] addr) b e).0) (overwrite_fits buf packet fits)
    ∙ ap (λ (r : Turn × Text × EdgeClient). r.0)
        (turn_fits env e (packet ++ rest) addr [] (omega arith) (
          handle_v_fuze_packet_short env (count_received e) payload payload rest six 0 addr
            (omega arith) on))

leases_unkept :
    (env : EdgeEnv) (e : EdgeClient) (r : RawMessage) (leases : LeasesInfos)
    → r.header.packet_type ≡ type_leases_infos
    → env.unmarshal_leases_infos r.payload ≡ some leases
    → leases.is_request ≡ false
    → e.eapi ≡ none
    → handle_leases_infos_message env r e ≡ (err Error.panic, e)
unfolding handle_leases_infos_message to_message
leases_unkept env e r leases typed decodes answer missing = simp (typed, decodes, answer, missing)

-- Leases that come before the management API is there make the routine panic.
pub leases_before_api :
    (env : EdgeEnv) (h : ProtoVHeader) (leases : LeasesInfos) (encoded buf : Text) (addr : UdpAddr)
    (e : EdgeClient)
    → IsHeader h
    → h.packet_type ≡ type_leases_infos
    → env.unmarshal_leases_infos encoded ≡ some leases
    → leases.is_request ≡ false
    → e.eapi ≡ none
    → length (pack h encoded) ≤ length buf
    → (handle_udp env (read_from (pack h encoded) addr) buf e).0 ≡ crashes
unfolding edge_handlers get
leases_before_api env h leases encoded buf addr e fits typed decodes answer missing room =
    ap (λ (r : Turn × Text × EdgeClient). r.0)
      (turn_fits env e buf addr (pack h encoded) room (
        receive_typed env (count_received e) encoded encoded h addr
          (drop (length (pack h encoded)) buf) fits
          (ap (λ (k : ℕ). get k (edge_handlers env)) typed)
        ∙ leases_unkept env (count_received e) (raw_of env e encoded encoded h addr) leases typed
            decodes answer missing))
