-- ===== src/Edge/Api.antt =====
-- pkg/edge/api.go: the loops that wait for an answer of the supernode.
pub mod Bounded
-- What happens to a loop: whether the answer has come when it looks for the `k`-th time, and the
-- milliseconds since its start, read after the sleep that follows.
use n2n_go.Base.{ℕ, zero, suc, Bool, not, ◌&&◌, Option, none, some, leb, if◌then◌else◌}
use n2n_go.Base.Exec.{and_then, ok}
use n2n_go.Edge.Requests.{send_p2p_full_state_request}
use n2n_go.Edge.State.{EdgeEnv, Ed}

pub record Wait : Type 0 where
  pub answered : ℕ → Bool
  pub elapsed : ℕ → ℕ

-- The loop of `WaitForCommunityDatasUpdate` from its `k`-th look on; the number of sleeps. `waiting` is
-- `IsWaitingCommunityDatas`, which the loop clears at its time limit: however it ends, it is clear then.
unfoldable pub wait_from : Wait → ℕ → ℕ → ℕ → Bool → Option ℕ
wait_from w timeout zero k waiting = none
wait_from w timeout (suc fuel) k waiting =
    let rest = wait_from w timeout fuel (suc k) (not (leb timeout (w.elapsed k))) in
    if waiting && not (w.answered k) then rest else some k

unfoldable pub wait_for_community_datas_update : Wait → ℕ → ℕ → Bool → Option ℕ
wait_for_community_datas_update w timeout fuel waiting = wait_from w timeout fuel 0 waiting

-- The loop of `GetPeersJSON` and of `GetLeasesInfosJSON`
unfoldable pub poll_from : Wait → ℕ → ℕ → Bool → Option ℕ
poll_from w zero k waiting = none
poll_from w (suc fuel) k waiting =
    let rest = poll_from w fuel (suc k) waiting in
    if waiting && not (w.answered k) then rest else some k

-- `GetPeersJSON`, up to the end of its loop, for an edge that then sees the answers of `w`.
unfoldable pub get_peers_json : EdgeEnv → Wait → ℕ → Ed (Option ℕ)
get_peers_json env w fuel e =
    and_then (send_p2p_full_state_request env e)
      λ _. λ t. (ok (poll_from w fuel 0 t.peers.is_waiting_community_datas), t)
