-- ===== src/Edge/Handlers.antt =====
-- The handlers of pkg/edge/handlers.go and handlers_missing.go, and the table that
-- `NewEdgeClient` fills.
pub mod Handshake
use n2n_go.Base.{true, false, not, Option, none, some, List, [], ◌∷◌, nat_beq, if◌then◌else◌}
use n2n_go.Base.Exec.{state_of, result_of, ok, and_then, Result, or_fail, err}
use n2n_go.Base.Keys.{Text}
use n2n_go.Edge.Receive.{handle_data_payload}
use n2n_go.Edge.Requests.{
  with_peers, send_peer_list_request, request_sn_public_key, request_register,
}
use n2n_go.Edge.State.{Ed, EdgeEnv, EdgeClient, EdgeClientApi}
use n2n_go.Errors.{Error}
use n2n_go.P2p.Registry.{Reg, handle_peer_info_list, update_p2p_community_datas}
use n2n_go.Protocol.Message.{RawMessage, to_message}
use n2n_go.Protocol.Spec.{
  type_leases_infos, type_register_response, type_retry_register_request, type_sn_public_secret,
  type_p2p_full_state, type_peer_info,
}
use n2n_go.Supernode.State.Messages.{LeasesInfos}

abbrev pub EdgeHandler : Type 0
EdgeHandler = RawMessage → Ed (Unit {0})

-- Errors are logged and forgotten, and a panic goes through.
abbrev pub logged : Result Error (Unit {0}) × EdgeClient → Result Error (Unit {0}) × EdgeClient
logged (ok _, e) = (ok tt, e)
logged (err Error.panic, e) = (err Error.panic, e)
logged (err _, e) = (ok tt, e)

-- A method of the registry, called on the edge's.
abbrev pub on_peers : Reg (Unit {0}) → Ed (Unit {0})
on_peers f e = (result_of (f e.peers), with_peers e (state_of (f e.peers)))

abbrev pub key_updated : Text → EdgeClient → EdgeClient
key_updated key e = record e { sn_pub_key = some key; is_waiting_for_sn_pub_key_update = false }

-- `handleSNPublicSecretMessage`
unfoldable pub handle_sn_public_secret_message : EdgeEnv → EdgeHandler
handle_sn_public_secret_message env r e =
    and_then (to_message type_sn_public_secret env.unmarshal_sn_public_secret r, e)
      λ rresp. λ t.
        and_then (or_fail Error.bad_public_key (env.parse_public_key rresp.msg.pem_data), t)
          λ key. λ u.
            if u.is_waiting_for_sn_retry_register_response
            then request_register env (key_updated key u)
            else (ok tt, key_updated key u)

abbrev reregistered : EdgeClient → EdgeClient
reregistered e = record e {
  registered = true;
  is_waiting_for_sn_retry_register_response = false;
  peers = record e.peers { is_waiting_community_datas = false };
}

-- `handleRegisterResponseMessage`
unfoldable pub handle_register_response_message : EdgeEnv → EdgeHandler
handle_register_response_message env r e =
    and_then (to_message type_register_response env.unmarshal_register_response r, e)
      λ rresp. λ t.
        if not rresp.msg.is_register_ok
        then (err Error.nack_register, t)
        else logged (send_peer_list_request env (reregistered t))

unfoldable pub handle_data_message : EdgeEnv → EdgeHandler
handle_data_message env r = handle_data_payload env r.payload

-- `handlePeerInfoMessage`
unfoldable pub handle_peer_info_message : EdgeEnv → EdgeHandler
handle_peer_info_message env r e =
    and_then (to_message type_peer_info env.unmarshal_peer_info_list r, e)
      λ m. on_peers (handle_peer_info_list env.resolver m.msg false true)

-- The API that keeps the leases; its pointer is dereferenced.
keep_leases : LeasesInfos → Option EdgeClientApi → Ed (Unit {0})
keep_leases leases none e = (err Error.panic, e)
keep_leases leases (some api) e = (
  ok tt,
  record e {
    eapi = some (record { is_waiting_for_leases_infos = false; last_leases_infos = some leases });
  },
)

-- `handleLeasesInfosMessage`
unfoldable pub handle_leases_infos_message : EdgeEnv → EdgeHandler
unfolding keep_leases
handle_leases_infos_message env r e =
    and_then (to_message type_leases_infos env.unmarshal_leases_infos r, e)
      λ m.
        λ t. if m.msg.is_request then (err Error.request_refused, t) else keep_leases m.msg t.eapi t

abbrev waiting_for_supernode : EdgeClient → EdgeClient
waiting_for_supernode e = record e {
  is_waiting_for_sn_pub_key_update = true;
  is_waiting_for_sn_retry_register_response = true;
}

-- `handleRetryRegisterRequest`
unfoldable pub handle_retry_register_request : EdgeEnv → EdgeHandler
handle_retry_register_request env r e =
    if not (nat_beq r.header.packet_type type_retry_register_request)
    then (err Error.wrong_packet_type, e)
    else if e.is_waiting_for_sn_retry_register_response
    then (ok tt, e)
    else and_then (request_sn_public_key env e) λ _. λ t. (ok tt, waiting_for_supernode t)

-- A map field that holds nothing is decoded as nil.
abbrev nil_if_empty {ℓ} : {A : Type ℓ} → List A → Option (List A)
nil_if_empty [] = none
nil_if_empty (x ∷ xs) = some (x ∷ xs)

-- `handleP2PFullStateMessage`
unfoldable pub handle_p2p_full_state_message : EdgeEnv → EdgeHandler
handle_p2p_full_state_message env r e =
    and_then (to_message type_p2p_full_state env.unmarshal_p2p_full_state r, e)
      λ m. λ t.
        if m.msg.is_request
        then (err Error.request_refused, t)
        else on_peers
            (update_p2p_community_datas (nil_if_empty m.msg.reachables)
              (nil_if_empty m.msg.unreachables))
            t
