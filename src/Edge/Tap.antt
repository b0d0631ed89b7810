-- ===== src/Edge/Tap.antt =====
-- `handleTAP` of pkg/edge/routines.go: what becomes of the frames that the host sends.
-- The comparison with `tuntap.IPv6`
pub mod Tunnel
use n2n_go.Base.{ℕ, Bool, ◌&&◌, ltb, nat_beq, if◌then◌else◌, length, take}
use n2n_go.Base.Exec.{err, state_of, and_then, Result, ok, result_of}
use n2n_go.Base.Keys.{Text}
use n2n_go.Edge.Listen.{Turn, crashes, stops, goes_on}
use n2n_go.Edge.State.{EdgeEnv, EdgeClient, Ed}
use n2n_go.Edge.Wire.{best_effort, send_v_fuze, enforce_supernode, write_edge_packet}
use n2n_go.Errors.{Error}
use n2n_go.Protocol.Mac.{HardwareAddr}
use n2n_go.Protocol.Spec.{type_data}
use n2n_go.Transform.{prepare_output}
use n2n_go.Tuntap.Frame.{
  fast_destination, overwrite, min_frame_size, get_ethertype, Ethertype, is_broadcast,
}

abbrev pub is_ipv6 : Ethertype → Bool
is_ipv6 t = nat_beq t.hi 0x86 && nat_beq t.lo 0xdd

-- A frame that has been prepared: to all by way of the supernode, and else by the best way.
unfoldable pub send_frame : EdgeEnv → HardwareAddr → Text → Ed (Unit {0})
send_frame env dest_mac payload e =
    if is_broadcast dest_mac
    then write_edge_packet env type_data dest_mac payload enforce_supernode e
    else if e.enable_v_fuze
    then send_v_fuze env dest_mac payload best_effort e
    else write_edge_packet env type_data dest_mac payload best_effort e

-- A frame of at least 14 bytes, in front of what the buffer held before.
unfoldable pub outgoing : EdgeEnv → Text → ℕ → Ed (Unit {0})
outgoing env frame_buf n e =
    and_then (get_ethertype frame_buf, e)
      λ ethertype. λ t.
        if is_ipv6 ethertype
        then (ok tt, t)
        else and_then (prepare_output env.random t.payload_processor (take n frame_buf), t)
            λ payload. send_frame env (fast_destination frame_buf) payload

-- What `TAP.Read` reports.
pub data TapRead : Type 0 where
  frame_read : Text → TapRead
  tap_read_closed tap_read_failed : TapRead

-- Errors are logged, but that of a closed connection ends the routine.
abbrev pub tap_turn_of : Result Error (Unit {0}) → Turn
tap_turn_of (ok _) = goes_on
tap_turn_of (err Error.panic) = crashes
tap_turn_of (err Error.conn_closed) = stops
tap_turn_of (err _) = goes_on

-- A turn of the loop of `handleTAP`
unfoldable pub handle_tap : EdgeEnv → TapRead → Text → EdgeClient → Turn × Text × EdgeClient
handle_tap env tap_read_closed frame_buf e = (stops, frame_buf, e)
handle_tap env tap_read_failed frame_buf e = (goes_on, frame_buf, e)
handle_tap env (frame_read frame) frame_buf e =
    let filled = overwrite frame_buf frame in
    let n = length (take (length frame_buf) frame) in
    if ltb n min_frame_size
    then (goes_on, filled, e)
    else let r = outgoing env filled n e in (tap_turn_of (result_of r), filled, state_of r)
