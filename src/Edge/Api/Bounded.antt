-- ===== src/Edge/Api/Bounded.antt =====
-- How long the loops of pkg/edge/api.go last.
use n2n_go.Base.{
  ℕ, zero, suc, ◌+◌, ◌*◌, ◌/◌, ◌≤◌, ◌<◌, ◌≡◌, refl, sym, ap, subst, ◌∙◌, inl, inr, Bool, true,
  false, not, Option, none, some, [], arith, leb, Bool-cases,
}
use n2n_go.Base.Exec.{state_of, ok, Result, and_then-ok}
use n2n_go.Edge.Api.{get_peers_json, poll_from, wait_from, Wait, wait_for_community_datas_update}
use n2n_go.Edge.Requests.{send_p2p_full_state_request, to_supernode, with_peers}
use n2n_go.Edge.State.{EdgeClient, EdgeEnv, p2p_full_state}
use n2n_go.Edge.Wire.{enforce_supernode}
use n2n_go.Edge.Wire.Sends.{send_edge_struct-OnlySends, OnlySends}
use n2n_go.Errors.{Error}

module _ (w : Wait) (timeout : ℕ) where
  wait_over : (fuel k : ℕ) → w.answered k ≡ true → wait_from w timeout (suc fuel) k true ≡ some k
  unfolding wait_from
  wait_over fuel k come = ground (arith, come)

  wait_on :
      (fuel k : ℕ)
      → w.answered k ≡ false
      → wait_from w timeout (suc fuel) k true
        ≡ wait_from w timeout fuel (suc k) (not (leb timeout (w.elapsed k)))
  unfolding wait_from
  wait_on fuel k missing = rw missing refl

  given_up : (fuel k : ℕ) → wait_from w timeout (suc fuel) k false ≡ some k
  unfolding wait_from
  given_up fuel k = refl

  abbrev EndsBy : ℕ → ℕ → Bool → Type 0
  EndsBy fuel k waiting =
      (j : ℕ) × (wait_from w timeout fuel k waiting ≡ some j) × (j ≤ timeout / 300 + 1)

  wait_from_bounded :
      ((k : ℕ) → suc k * 300 ≤ w.elapsed k)
      → (fuel k : ℕ) → timeout / 300 + 1 ≤ fuel + k
      → k ≤ timeout / 300
      → EndsBy (suc fuel) k true
  wait_from_bounded slept zero k enough early = absurd (omega arith)
  wait_from_bounded slept (suc fuel) k enough early = elim (Bool-cases (w.answered k)) [
    | inl come ↦ (k, wait_over (suc fuel) k come, omega arith)
    | inr missing ↦ elim (Bool-cases (leb timeout (w.elapsed k))) [
      | inl late ↦
          (suc k, wait_on (suc fuel) k missing ∙ rw late (given_up fuel (suc k)), omega arith)
      | inr soon ↦
          let short : suc k * 300 < timeout = ground (arith, slept k, soon) in
          let (j, ends, bound) =
            wait_from_bounded slept fuel (suc k) (omega arith) (omega (arith, short)) in
          (j, wait_on (suc fuel) k missing ∙ rw soon ends, bound)
    ]
  ]

-- `WaitForCommunityDatasUpdate` ends, whether the answer comes or not: after at most one sleep more
-- than fit into the time limit, where each sleep takes its 300 ms.
pub wait_ends :
    (w : Wait) (timeout : ℕ) (waiting : Bool)
    → ((k : ℕ) → suc k * 300 ≤ w.elapsed k)
    → (sleeps : ℕ) × (wait_for_community_datas_update w timeout (suc (suc (timeout / 300))) waiting
        ≡ some sleeps)
      × (sleeps ≤ timeout / 300 + 1)
unfolding wait_for_community_datas_update
wait_ends w timeout false slept = (0, given_up w timeout (suc (timeout / 300)) 0, omega arith)
wait_ends w timeout true slept =
    wait_from_bounded w timeout slept (suc (timeout / 300)) 0 (omega arith) (omega arith)

poll-unanswered :
    (w : Wait) → ((k : ℕ) → w.answered k ≡ false) → (fuel k : ℕ) → poll_from w fuel k true ≡ none
unfolding poll_from
poll-unanswered w missing zero k = refl
poll-unanswered w missing (suc fuel) k = rw (missing k) (poll-unanswered w missing fuel (suc k))

module _ (env : EdgeEnv) (e : EdgeClient) where
  abbrev asking : EdgeClient
  asking = with_peers e (record e.peers { is_waiting_community_datas = true })

  asked_already :
      e.peers.is_waiting_community_datas ≡ true → send_p2p_full_state_request env e ≡ (ok tt, e)
  unfolding send_p2p_full_state_request
  asked_already waits = simp waits

  asks_now :
      e.peers.is_waiting_community_datas ≡ false
      → OnlySends asking (state_of (send_p2p_full_state_request env e))
  unfolding send_p2p_full_state_request
  asks_now idle =
      let m = p2p_full_state (record {
        community_name = e.community;
        is_request = true;
        reachables = [];
        unreachables = [];
      }) in
      let step : send_p2p_full_state_request env e ≡ to_supernode env m asking = simp idle in
      subst (OnlySends asking) (ap (λ (z : Result Error (Unit {0}) × EdgeClient). z.1) (sym step))
        (send_edge_struct-OnlySends env m [] enforce_supernode asking)

  still_waiting :
      (state_of (send_p2p_full_state_request env e)).peers.is_waiting_community_datas ≡ true
  still_waiting = elim (Bool-cases e.peers.is_waiting_community_datas) [
    | inl waits ↦
        ap (λ (z : Result Error (Unit {0}) × EdgeClient). z.1.peers.is_waiting_community_datas)
          (asked_already waits)
        ∙ waits
    | inr idle ↦ ap (λ (z : EdgeClient). z.peers.is_waiting_community_datas) (asks_now idle).kept
  ]

-- The loop of `GetPeersJSON` has no limit: where the request could be sent, or an earlier one still
-- waits, and no answer comes, it is still in its loop after any number of turns.
get_peers_json_stuck :
    (env : EdgeEnv) (w : Wait) (fuel : ℕ) (e : EdgeClient) {polled : Option ℕ} {t : EdgeClient}
    → ((k : ℕ) → w.answered k ≡ false)
    → get_peers_json env w fuel e ≡ (ok polled, t)
    → polled ≡ none
unfolding get_peers_json
get_peers_json_stuck env w fuel e {polled} {t} missing run =
    let (u, sent, rest) = and_then-ok (send_p2p_full_state_request env e) _ run in
    let after = state_of (send_p2p_full_state_request env e) in
    let stuck : poll_from w fuel 0 after.peers.is_waiting_community_datas ≡ none =
      ap (λ (b : Bool). poll_from w fuel 0 b) (still_waiting env e)
      ∙ poll-unanswered w missing fuel 0 in
    let same : poll_from w fuel 0 after.peers.is_waiting_community_datas ≡ polled = cc in
    sym same ∙ stuck
