-- ===== src/Edge/Receive.antt =====
-- What an edge does with the payloads that come in: `handleVFuzePacket` and `handleDataPayload` of
-- pkg/edge/handlers.go.
pub mod Frames
use n2n_go.Base.{
  ℕ, ◌-◌, Bool, true, false, not, ◌&&◌, ◌||◌, none, some, [], ◌∷◌, ◌++◌, ltb, nat_beq,
  if◌then◌else◌, length, take, drop, replicate,
}
use n2n_go.Base.Exec.{and_then, ok, Result, err, ◌>>=◌}
use n2n_go.Base.Keys.{◌==◌, Text, text_eq, nat_eq}
use n2n_go.Edge.State.{closed, failed, written, Ed, EdgeEnv, UdpAddr, EdgeClient, IoWrite}
use n2n_go.Errors.{Error}
use n2n_go.Net.{ip_equal}
use n2n_go.P2p.Registry.{get_peer_by_socket}
use n2n_go.Protocol.Fuze.{proto_v_fuze_size, v_fuze_packet_dest_mac_addr}
use n2n_go.Protocol.Mac.{mac_string}
use n2n_go.Transform.{parse_input}

abbrev pub min_gcm_size : ℕ
min_gcm_size = 28

-- The least frame that a TAP device takes.
abbrev pub min_tap_size : ℕ
min_tap_size = 60

-- What is written to the TAP device for a payload: short ones skip the transforms.
unfoldable pub frame_of : EdgeClient → Text → Result Error Text
frame_of e payload =
    if ltb (length payload) min_gcm_size
    then ok payload
    else parse_input e.payload_processor payload

unfoldable pub padded : Text → Text
padded payload =
    if ltb (length payload) min_tap_size
    then payload ++ replicate (min_tap_size - length payload) 0
    else payload

-- `TAP.Write`
tap_written : IoWrite → Text → Ed (Unit {0})
tap_written written frame e = (ok tt, record e { tap_frames = e.tap_frames ++ frame ∷ [] })
tap_written failed frame e = (err Error.tap_write_failed, e)
tap_written closed frame e = (err Error.tap_closed, e)

-- `handleDataPayload`
unfoldable pub handle_data_payload : EdgeEnv → Text → Ed (Unit {0})
unfolding tap_written
handle_data_payload env payload e =
    and_then (frame_of e payload, e)
      λ frame. tap_written (env.tap_write (padded frame)) (padded frame)

-- `IsKnownPeerSocket`
unfoldable pub is_known_peer_socket : EdgeEnv → EdgeClient → UdpAddr → Bool
is_known_peer_socket env e addr = elim (get_peer_by_socket env.resolver e.peers addr) [
  | ok ref ↦ true
  | err x ↦ false
]

-- `IsSupernodeUDPAddr`: both pointers are dereferenced.
unfoldable pub is_supernode_udp_addr : EdgeClient → UdpAddr → Result Error Bool
is_supernode_udp_addr e none = err Error.panic
is_supernode_udp_addr e (some (ip, port)) = elim e.supernode_addr [
  | none ↦ err Error.panic
  | some (sn_ip, sn_port) ↦ ok (ip_equal ip sn_ip && nat_beq port sn_port)
]

-- `disablePeerSocketCheckingInVFuze`
abbrev disable_peer_socket_checking_in_v_fuze : Bool
disable_peer_socket_checking_in_v_fuze = true

-- Whether the sender of a VFuze packet may send one.
may_send : EdgeEnv → EdgeClient → UdpAddr → Result Error Bool
may_send env e addr = if disable_peer_socket_checking_in_v_fuze then ok true else do
  is_supernode ← is_supernode_udp_addr e addr
  ok (is_supernode || is_known_peer_socket env e addr)

-- `packetBuf[ProtoVFuzeSize:n]`
fuze_payload : Text → ℕ → Result Error Text
fuze_payload packet_buf n =
    if ltb n proto_v_fuze_size
    then err Error.panic
    else ok (drop proto_v_fuze_size (take n packet_buf))

from_sender : EdgeEnv → Text → ℕ → UdpAddr → Ed (Unit {0})
unfolding may_send fuze_payload
from_sender env packet_buf n addr e =
    and_then (may_send env e addr, e)
      λ may. λ t.
        if not may
        then (ok tt, t)
        else and_then (fuze_payload packet_buf n, t) (handle_data_payload env)

-- `handleVFuzePacket`: the whole buffer, of which the first `n` bytes have just been read.
unfoldable pub handle_v_fuze_packet : EdgeEnv → Text → ℕ → UdpAddr → Ed (Unit {0})
unfolding from_sender
handle_v_fuze_packet env packet_buf n addr e =
    if not e.enable_v_fuze then (ok tt, e) else elim (v_fuze_packet_dest_mac_addr packet_buf) [
      | err x ↦ (ok tt, e)
      | ok dst ↦
          if not (mac_string e.mac_addr == mac_string dst)
          then (ok tt, e)
          else from_sender env packet_buf n addr e
    ]
