-- ===== src/Supernode/Process.antt =====
-- `ProcessPacket` of pkg/supernode/supernode.go, and the table of handlers that
-- `NewSupernodeWithConfig` fills. Each packet is handled whole before the next one.
pub mod Safe
pub mod Strangers
use n2n_go.Base.{ℕ, [], ◌∷◌, nat_beq, if◌then◌else◌}
use n2n_go.Base.Exec.{err, ok, Result, state_of}
use n2n_go.Base.Keys.{Text, text_eq, nat_eq}
use n2n_go.Base.Maps.{Map}
use n2n_go.Errors.{Error}
use n2n_go.Net.{Addr, wss, udp, tcp, nil_addr}
use n2n_go.Protocol.Fuze.{version_v_fuze}
use n2n_go.Protocol.Message.{handle, new_raw_message}
use n2n_go.Protocol.Spec.{
  type_data, type_sn_public_secret, type_register_request, type_p2p_state_info,
  type_unregister_request, type_leases_infos, type_heartbeat, type_peer_list_request,
  type_p2p_full_state, type_retry_register_request, type_ping,
}
use n2n_go.Supernode.Handlers.{
  handle_p2p_state_info_message, handle_peer_request_message, Handler, handle_register_message,
  handle_unregister_message, handle_data_message, handle_sn_public_secret_message,
  handle_ping_message, handle_p2p_full_state_message, handle_v_fuze, handle_leases_infos_message,
  handle_heartbeat_message,
}
use n2n_go.Supernode.State.{add_u64, Supernode, Sn, Env}
use n2n_go.Supernode.Wire.{write_packet}

abbrev sn_message_handlers : Env → Map ℕ Handler
sn_message_handlers env =
    (type_register_request, handle_register_message env)
    ∷ (type_unregister_request, handle_unregister_message env)
    ∷ (type_heartbeat, handle_heartbeat_message env)
    ∷ (type_data, handle_data_message env)
    ∷ (type_peer_list_request, handle_peer_request_message env)
    ∷ (type_ping, handle_ping_message env)
    ∷ (type_p2p_state_info, handle_p2p_state_info_message env)
    ∷ (type_p2p_full_state, handle_p2p_full_state_message env)
    ∷ (type_leases_infos, handle_leases_infos_message env)
    ∷ (type_sn_public_secret, handle_sn_public_secret_message env)
    ∷ []

-- An edge that the supernode does not know is asked to register again, if it can be reached by UDP.
retry_register : Env → Addr → Supernode → Supernode
retry_register env (udp ip port) s =
    state_of (write_packet env type_retry_register_request [] [] [] (udp ip port) s)
retry_register env nil_addr s = s
retry_register env (tcp ip port) s = s
retry_register env (wss conn) s = s

-- The end of `ProcessPacket`: errors are logged, and a panic goes through.
outcome : Env → Addr → Result Error (Unit {0}) × Supernode → Result Error (Unit {0}) × Supernode
unfolding retry_register
outcome env addr (ok _, s) = (ok tt, s)
outcome env addr (err Error.panic, s) = (err Error.panic, s)
outcome env addr (err Error.unknown_edge, s) = (ok tt, retry_register env addr s)
outcome env addr (err Error.community_not_found, s) = (ok tt, retry_register env addr s)
outcome env addr (err _, s) = (ok tt, s)

abbrev pub count_processed : Supernode → Supernode
count_processed s = record s {
  stats = record s.stats { packets_processed = add_u64 s.stats.packets_processed 1 };
}

-- A packet with the 30-byte header, or what fails to be one.
process_datagram : Env → Text → Addr → Sn (Unit {0})
unfolding outcome
process_datagram env packet addr s = elim (new_raw_message packet addr) [
  | err e ↦ (ok tt, s)
  | ok r ↦ outcome env addr (handle (sn_message_handlers env) r s)
]

-- `ProcessPacket`; the only error that it has is a panic. It reads the first byte unchecked.
unfoldable pub process_packet : Env → Text → Addr → Sn (Unit {0})
unfolding process_datagram
process_packet env [] addr s = (err Error.panic, count_processed s)
process_packet env (b ∷ bs) addr s =
    if nat_beq b version_v_fuze
    then (ok tt, handle_v_fuze env (b ∷ bs) addr (count_processed s))
    else process_datagram env (b ∷ bs) addr (count_processed s)
