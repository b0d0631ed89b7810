-- ===== src/Edge/Requests.antt =====
-- pkg/edge/requests.go, and the requests of setup.go: what an edge asks of its supernode.
pub mod Register
pub mod Asked
use n2n_go.Base.{Bool, true, false, not, ◌||◌, none, some, [], if◌then◌else◌}
use n2n_go.Base.Exec.{err, Result, or_fail, ok, and_then}
use n2n_go.Base.Keys.{Text}
use n2n_go.Edge.State.{
  register_request, peer_list_request, EdgeMessage, heartbeat_pulse, EdgeClient, EdgeClientApi, Ed,
  EdgeEnv, p2p_state_info, unregister_request, leases_infos, sn_public_secret, p2p_full_state,
}
use n2n_go.Edge.Wire.{enforce_supernode, send_edge_struct}
use n2n_go.Errors.{Error}
use n2n_go.P2p.Registry.{PeerRegistry, get_peer_p2p_infos}
use n2n_go.Protocol.Mac.{mac_string}
use n2n_go.Protocol.Message.{edge_mac_addr}
use n2n_go.Supernode.State.Messages.{RegisterRequest}

abbrev pub to_supernode : EdgeEnv → EdgeMessage → Ed (Unit {0})
to_supernode env m = send_edge_struct env m [] enforce_supernode

-- `EncryptedMachineID`: without a key, `rsa.EncryptOAEP` dereferences nil.
unfoldable pub encrypted_machine_id : EdgeEnv → EdgeClient → Result Error Text
encrypted_machine_id env e = elim e.sn_pub_key [
  | none ↦ err Error.panic
  | some key ↦ or_fail Error.encrypt_failed (env.encrypt key e.machine_id)
]

-- `RequestSNPublicKey`
unfoldable pub request_sn_public_key : EdgeEnv → Ed (Unit {0})
request_sn_public_key env =
    to_supernode env (sn_public_secret (record { is_request = true; pem_data = [] }))

abbrev pub registration : EdgeClient → Text → RegisterRequest
registration e enc = record {
  edge_mac_addr = mac_string e.mac_addr;
  edge_desc = e.id;
  community_name = e.community;
  encrypted_machine_id = enc;
  clear_machine_id = [];
}

-- `RequestRegister`
unfoldable pub request_register : EdgeEnv → Ed (Unit {0})
request_register env e =
    and_then (encrypted_machine_id env e, e)
      λ enc. λ t. to_supernode env (register_request (registration t enc)) t

-- `Unregister`: only the first call sends.
unfoldable pub request_unregister : EdgeEnv → Ed (Unit {0})
request_unregister env e =
    if not e.registered
    then (err Error.not_registered, e)
    else and_then (encrypted_machine_id env e, e)
        λ enc. λ t.
          if t.unregister_done
          then (ok tt, t)
          else to_supernode env
              (unregister_request (record {
                edge_mac_addr = mac_string t.mac_addr;
                community_name = t.community;
                encrypted_machine_id = enc;
              }))
              (record t { unregister_done = true })

-- `sendPeerListRequest`
unfoldable pub send_peer_list_request : EdgeEnv → Ed (Unit {0})
send_peer_list_request env e =
    to_supernode env (peer_list_request (record { community_name = e.community })) e

abbrev pub is_waiting : EdgeClient → Bool
is_waiting e = e.is_waiting_for_sn_pub_key_update || e.is_waiting_for_sn_retry_register_response

-- `sendHeartbeat`
unfoldable pub send_heartbeat : EdgeEnv → Ed (Unit {0})
send_heartbeat env e =
    if is_waiting e
    then (err Error.waiting_for_supernode, e)
    else and_then (encrypted_machine_id env e, e)
        λ enc. λ t.
          to_supernode env
            (heartbeat_pulse (record {
              edge_mac_addr = mac_string t.mac_addr;
              community_name = t.community;
              encrypted_machine_id = enc;
              clear_machine_id = [];
            }))
            t

abbrev pub with_peers : EdgeClient → PeerRegistry → EdgeClient
with_peers e reg = record e { peers = reg }

-- `sendP2PInfos`: the changes count as told before the message is sent.
unfoldable pub send_p2p_infos : EdgeEnv → Ed (Unit {0})
send_p2p_infos env e =
    if is_waiting e
    then (err Error.waiting_for_supernode, e)
    else if not e.peers.has_pending_changes
    then (ok tt, e)
    else to_supernode env (p2p_state_info (get_peer_p2p_infos e.peers))
        (with_peers e (record e.peers { has_pending_changes = false }))

-- `sendP2PFullStateRequest`
unfoldable pub send_p2p_full_state_request : EdgeEnv → Ed (Unit {0})
send_p2p_full_state_request env e =
    if e.peers.is_waiting_community_datas
    then (ok tt, e)
    else to_supernode env
        (p2p_full_state (record {
          community_name = e.community;
          is_request = true;
          reachables = [];
          unreachables = [];
        }))
        (with_peers e (record e.peers { is_waiting_community_datas = true }))

-- What is marked once the request for the leases is sent.
leases_requested : EdgeClientApi → Ed (Unit {0})
leases_requested api e =
    (ok tt, record e { eapi = some (record api { is_waiting_for_leases_infos = true }) })

-- `sendLeasesInfosRequest`, a method of the API
unfoldable pub send_leases_infos_request : EdgeEnv → EdgeClientApi → Ed (Unit {0})
unfolding leases_requested
send_leases_infos_request env api e =
    if api.is_waiting_for_leases_infos
    then (ok tt, e)
    else and_then
        (to_supernode env
          (leases_infos (record { is_request = true; community_name = e.community; leases = [] }))
          e)
        (λ _. leases_requested api)
