-- ===== src/Edge/Listen.antt =====
-- The loops of pkg/edge/routines.go that read packets, one turn of each.
-- What a turn ends with: the next one, the end of the routine, or a panic that nothing recovers.
pub mod Delivery
pub mod Stale
use n2n_go.Base.{ℕ, none, some, ltb, nat_beq, if◌then◌else◌, length, take}
use n2n_go.Base.Bytes.{byte_at}
use n2n_go.Base.Exec.{ok, Result, err, state_of, result_of}
use n2n_go.Base.Keys.{Text}
use n2n_go.Edge.Peers.{edge_handlers}
use n2n_go.Edge.Receive.{handle_v_fuze_packet}
use n2n_go.Edge.State.{Ed, EdgeEnv, UdpAddr, EdgeClient}
use n2n_go.Errors.{Error}
use n2n_go.Net.{nil_addr, udp, Addr}
use n2n_go.Protocol.Fuze.{version_v_fuze}
use n2n_go.Protocol.Header.{proto_v_header_size}
use n2n_go.Protocol.Message.{handle, new_raw_message}
use n2n_go.Supernode.State.{add_u64}
use n2n_go.Tuntap.Frame.{overwrite}

pub data Turn : Type 0 where
  goes_on stops crashes : Turn

-- The errors of a handler are logged, but that of a closed TAP device ends the routine.
abbrev pub turn_of : Result Error (Unit {0}) → Turn
turn_of (ok _) = goes_on
turn_of (err Error.panic) = crashes
turn_of (err Error.tap_closed) = stops
turn_of (err _) = goes_on

abbrev pub count_received : EdgeClient → EdgeClient
count_received e = record e { packets_recv = add_u64 e.packets_recv 1 }

abbrev pub addr_of : UdpAddr → Addr
addr_of none = nil_addr
addr_of (some (ip, port)) = udp ip port

-- A packet of at least the header's length.
received_datagram : EdgeEnv → Text → UdpAddr → Ed (Unit {0})
received_datagram env packet addr e = elim (new_raw_message packet (addr_of addr)) [
  | err x ↦ (ok tt, e)
  | ok r ↦ handle (edge_handlers env) r e
]

-- What a turn of `handleUDP` and of `handleWSS` does with the buffer, of which `n` bytes were read.
unfoldable pub receive_packet : EdgeEnv → Text → ℕ → UdpAddr → Ed (Unit {0})
unfolding received_datagram
receive_packet env packet_buf n addr e =
    if nat_beq (byte_at 0 packet_buf) version_v_fuze
    then handle_v_fuze_packet env packet_buf n addr e
    else if ltb n proto_v_header_size
    then (ok tt, e)
    else received_datagram env (take n packet_buf) addr e

-- What `ReadFromUDP` reports.
pub data UdpRead : Type 0 where
  read_from : Text → UdpAddr → UdpRead
  read_closed read_failed : UdpRead

-- A turn of the loop of `handleUDP`: the buffer is used again, and what the packet does not reach
-- is still that of the packets before.
unfoldable pub handle_udp : EdgeEnv → UdpRead → Text → EdgeClient → Turn × Text × EdgeClient
handle_udp env read_closed packet_buf e = (stops, packet_buf, e)
handle_udp env read_failed packet_buf e = (goes_on, packet_buf, e)
handle_udp env (read_from packet addr) packet_buf e =
    let filled = overwrite packet_buf packet in
    let r =
      receive_packet env filled (length (take (length packet_buf) packet)) addr
        (count_received e) in
    (turn_of (result_of r), filled, state_of r)
