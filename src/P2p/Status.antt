-- ===== src/P2p/Status.antt =====
-- `Peer` of pkg/p2p/p2p.go and the state machine of its `P2PStatus`. The TTL, an int there, is never
-- read below 0: at 0 it counts as 0 for every test, and only 30 is ever assigned to it.
pub mod Expiry
pub mod Reached
use n2n_go.Base.{ℕ, ◌-◌, Bool, not, ◌&&◌, [], ltb, nat_beq, if◌then◌else◌}
use n2n_go.Base.Exec.{Result, ok, err}
use n2n_go.Base.Keys.{Text}
use n2n_go.Errors.{Error}
use n2n_go.P2p.Peer.{PeerInfo}

abbrev pub p2p_unknown : ℕ
p2p_unknown = 0

abbrev pub p2p_pending : ℕ
p2p_pending = 1

abbrev pub p2p_available : ℕ
p2p_available = 2

abbrev pub p2p_full_duplex : ℕ
p2p_full_duplex = 3

abbrev pub p2p_unavailable : ℕ
p2p_unavailable = 4

pub record Peer : Type 0 where
  pub infos : PeerInfo
  pub p2p_status : ℕ
  pub is_full_duplex : Bool
  pub p2p_check_id : Text
  pub pending_ttl : ℕ
  pub updated_at : ℕ

abbrev reset_pending_ttl : Peer → Peer
reset_pending_ttl p = record p { pending_ttl = 30 }

-- The first half of `UpdateP2PStatus`, which counts the attempts to reach the peer.
count_down : ℕ → Peer → Peer
count_down status p =
    if nat_beq p.p2p_status status
    then (if nat_beq status p2p_pending then record p { pending_ttl = p.pending_ttl - 1 } else p)
    else if nat_beq p.p2p_status p2p_unknown && nat_beq status p2p_pending
    then reset_pending_ttl p
    else p

set_status : ℕ → ℕ → Text → Peer → Peer
set_status now status check_id p =
    if ltb p.pending_ttl 1
    then record p { p2p_check_id = []; p2p_status = p2p_unavailable; updated_at = now }
    else record p { p2p_check_id = check_id; p2p_status = status; updated_at = now }

-- `UpdateP2PStatus`
unfoldable pub update_p2p_status : ℕ → ℕ → Text → Peer → Bool × Peer
unfolding count_down set_status
update_p2p_status now status check_id p =
    (not (nat_beq p.p2p_status status), set_status now status check_id (count_down status p))

-- `SetFullDuplex`
unfoldable pub set_full_duplex : Bool → Peer → Result Error Bool × Peer
set_full_duplex value p =
    if value && not (nat_beq p.p2p_status p2p_available) then (err Error.not_available, p) else (
      ok (if value then not p.is_full_duplex else p.is_full_duplex),
      record p { is_full_duplex = value },
    )
