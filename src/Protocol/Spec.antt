-- ===== src/Protocol/Spec.antt =====
-- pkg/protocol/spec/spec.go: the packet types, numbers of one byte.
use Prim.Native.String.{String}
use n2n_go.Base.{ℕ, ◌≡◌, refl, List, [], ◌∷◌, nat_beq, if◌then◌else◌}

abbrev pub type_register_request : ℕ
type_register_request = 1

abbrev pub type_unregister_request : ℕ
type_unregister_request = 2

abbrev pub type_heartbeat : ℕ
type_heartbeat = 3

abbrev pub type_data : ℕ
type_data = 4

abbrev pub type_ack : ℕ
type_ack = 5

abbrev pub type_peer_list_request : ℕ
type_peer_list_request = 6

abbrev pub type_peer_info : ℕ
type_peer_info = 7

abbrev pub type_ping : ℕ
type_ping = 8

abbrev pub type_p2p_state_info : ℕ
type_p2p_state_info = 9

abbrev pub type_p2p_full_state : ℕ
type_p2p_full_state = 10

abbrev pub type_leases_infos : ℕ
type_leases_infos = 11

abbrev pub type_online_check : ℕ
type_online_check = 12

abbrev pub type_ice_candidate : ℕ
type_ice_candidate = 14

abbrev pub type_turn_credentials : ℕ
type_turn_credentials = 15

abbrev pub type_sn_public_secret : ℕ
type_sn_public_secret = 251

abbrev pub type_register_response : ℕ
type_register_response = 252

abbrev pub type_retry_register_request : ℕ
type_retry_register_request = 253

-- `PacketType.String`: the cases of the `switch`, and its default.
abbrev names : List (ℕ × String)
names =
    (type_register_request, "RegisterRequest")
    ∷ (type_unregister_request, "UnregisterRequest")
    ∷ (type_heartbeat, "Heartbeat")
    ∷ (type_data, "Data")
    ∷ (type_ack, "Ack")
    ∷ (type_peer_list_request, "PeerListRequest")
    ∷ (type_peer_info, "PeerInfo")
    ∷ (type_ping, "Ping")
    ∷ (type_p2p_state_info, "P2PStateInfo")
    ∷ (type_leases_infos, "LeasesInfos")
    ∷ (type_register_response, "RegisterResponse")
    ∷ (type_retry_register_request, "RetryRegisterRequest")
    ∷ (type_sn_public_secret, "SNPublicSecret")
    ∷ (type_ice_candidate, "ICECandidate")
    ∷ (type_turn_credentials, "TURNCredentials")
    ∷ []

name_in : List (ℕ × String) → ℕ → String
name_in [] pt = "Unknown"
name_in ((t, name) ∷ rest) pt = if nat_beq pt t then name else name_in rest pt

pub type_name : ℕ → String
unfolding name_in
type_name = name_in names

type_name_runs : type_name 251 ≡ "SNPublicSecret"
unfolding type_name
type_name_runs = refl

-- P2PFullState and OnlineCheck have no case, so they are logged as unknown.
type_name_gap :
    (type_name type_p2p_full_state ≡ "Unknown") × (type_name type_online_check ≡ "Unknown")
unfolding type_name
type_name_gap = (refl, refl)
