-- ===== src/Edge/Setup.antt =====
-- pkg/edge/setup.go: how an edge comes to its supernode, and `handleWSS` where it comes back.
-- What the wait for one answer meets: deadlines that are set and reset, and a packet.
pub mod Backoff
pub mod Initial
use n2n_go.Base.{
  ℕ, ◌*◌, Bool, true, false, not, ◌||◌, Option, some, [], ◌∷◌, ◌++◌, ltb, nat_beq, if◌then◌else◌,
  length,
}
use n2n_go.Base.Exec.{err, state_of, result_of, and_then, ok, or_fail, Result, ◌>>=◌}
use n2n_go.Base.Keys.{Text, ◌==◌, text_eq, nat_eq}
use n2n_go.Edge.Handlers.{logged}
use n2n_go.Edge.Listen.{goes_on, stops, Turn, turn_of}
use n2n_go.Edge.Requests.{request_sn_public_key, request_register}
use n2n_go.Edge.State.{Ed, EdgeClient, EdgeEnv}
use n2n_go.Errors.{Error}
use n2n_go.Net.{Addr}
use n2n_go.Protocol.Header.{proto_v_header_size}
use n2n_go.Protocol.Message.{message_from_packet}
use n2n_go.Protocol.Spec.{type_sn_public_secret, type_register_response}
use n2n_go.Supernode.State.Messages.{RegisterResponse}
use n2n_go.Tuntap.Arp.{gratuitous_arp}

pub record Reading : Type 0 where
  pub deadline_set : Bool
  pub packet : Option (Text × Addr)
  pub deadline_reset : Bool

-- The steps between a first request and the message that answers it.
read_answer : EdgeClient → Reading → Result Error (Text × Addr)
read_answer e reading =
    if not (e.has_wss || e.has_conn)
    then err Error.no_transport
    else if not reading.deadline_set
    then err Error.deadline_failed
    else do
      answer ← or_fail Error.read_failed reading.packet
      if not reading.deadline_reset
          then err Error.deadline_failed
          else if ltb (length answer.0) proto_v_header_size
          then err Error.packet_too_short
          else ok answer

-- `InitialGetSNPublicKey`
unfoldable pub initial_get_sn_public_key : EdgeEnv → Reading → Ed (Unit {0})
unfolding read_answer
initial_get_sn_public_key env reading e = and_then (request_sn_public_key env e) λ _. λ t.
    and_then (read_answer t reading, t)
      λ answer. λ u.
        and_then
          (
            message_from_packet type_sn_public_secret env.unmarshal_sn_public_secret answer.0
                answer.1,
            u,
          )
          λ rresp. λ v.
            and_then (or_fail Error.bad_public_key (env.parse_public_key rresp.msg.pem_data), v)
              λ key. λ w. (ok tt, record w { sn_pub_key = some key })

-- `strings.Split(s, "/")[0]`
before_slash : Text → Text
before_slash [] = []
before_slash (b ∷ bs) = let rest = before_slash bs in if nat_beq b 47 then [] else b ∷ rest

-- What is kept of a response that grants the registration.
take_address : EdgeEnv → RegisterResponse → Ed (Unit {0})
unfolding before_slash
take_address env m e =
    let cidr = env.cidr_string m.virtual_ip m.masklen in
    let ip = env.resolver.parse_ip (before_slash cidr) in
    let addressed = record e { virtual_ip = cidr; parsed_virtual_ip = ip } in
    if ip == []
    then (err Error.bad_virtual_ip, addressed)
    else (ok tt, record addressed { registered = true })

-- `InitialRegister`
unfoldable pub initial_register : EdgeEnv → Reading → Ed (Unit {0})
unfolding read_answer take_address
initial_register env reading e = and_then (request_register env e) λ _. λ t.
    and_then (read_answer t reading, t)
      λ answer. λ u.
        and_then
          (
            message_from_packet type_register_response env.unmarshal_register_response answer.0
                answer.1,
            u,
          )
          λ rresp. λ v.
            if not rresp.msg.is_register_ok
            then (err Error.nack_register, v)
            else take_address env rresp.msg v

-- `TunUp`
unfoldable pub tun_up : EdgeEnv → Ed (Unit {0})
tun_up env e =
    if e.virtual_ip == []
    then (err Error.no_virtual_ip, e)
    else if env.tap_up e.virtual_ip
    then (ok tt, e)
    else (err Error.tap_up_failed, e)

-- `sendGratuitousARP`
unfoldable pub send_gratuitous_arp : EdgeEnv → Ed (Unit {0})
send_gratuitous_arp env e =
    if e.parsed_virtual_ip == []
    then (err Error.no_virtual_ip, e)
    else and_then (gratuitous_arp e.parsed_virtual_ip env.tap_hardware_addr, e)
        λ frame. λ t.
          if env.raw_write frame
          then (ok tt, record t { arp_frames = t.arp_frames ++ frame ∷ [] })
          else (err Error.raw_write_failed, t)

-- `InitialSetup`
unfoldable pub initial_setup : EdgeEnv → Reading → Reading → Ed (Unit {0})
initial_setup env key_reading reading e =
    and_then (initial_get_sn_public_key env key_reading e) λ _. λ t.
      and_then (initial_register env reading t)
        λ _. λ u. and_then (tun_up env u) λ _. send_gratuitous_arp env

-- `reconnectDelay`, in seconds
abbrev pub first_delay : ℕ
first_delay = 3

abbrev pub last_delay : ℕ
last_delay = 60

unfoldable pub backed_off : ℕ → ℕ
backed_off delay = if ltb last_delay (delay * 2) then last_delay else delay * 2

-- The turn of `handleWSS` that connects again, with what `NewWSSTransport` reports.
unfoldable pub reconnect : EdgeEnv → Bool → Bool → ℕ → EdgeClient → Turn × ℕ × EdgeClient
reconnect env has_config connects delay e =
    if not has_config
    then (stops, delay, e)
    else if not connects
    then (goes_on, backed_off delay, e)
    else let r = request_sn_public_key env (record e {
      has_wss = true;
      registered = false;
      is_waiting_for_sn_retry_register_response = true;
    }) in
      (turn_of (result_of (logged r)), first_delay, state_of r)
