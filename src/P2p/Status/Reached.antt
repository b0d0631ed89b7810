-- ===== src/P2p/Status/Reached.antt =====
-- `UpdateP2PStatus` of pkg/p2p/p2p.go where a peer is pinged, and where it answers.
use n2n_go.Base.{ℕ, ◌<◌, ◌≡◌, true, false, not, [], arith, ltb, nat_beq}
use n2n_go.Base.Keys.{Text}
use n2n_go.P2p.Status.{
  p2p_unavailable, Peer, update_p2p_status, p2p_available, count_down, set_status,
}

module _ (now : ℕ) (check_id : Text) (p : Peer) where
  -- The check id of a ping is kept where an attempt is left after it.
  pub kept_check_id :
      (status : ℕ)
      → 0 < (update_p2p_status now status check_id p).1.pending_ttl
      → (update_p2p_status now status check_id p).1.p2p_check_id ≡ check_id
  unfolding update_p2p_status set_status
  kept_check_id status left = ground arith

  uncounted : count_down p2p_available p ≡ p
  unfolding count_down
  uncounted = ground arith

  -- The status is taken over while an attempt is left.
  pub reached :
      0 < p.pending_ttl
      → update_p2p_status now p2p_available check_id p ≡ (
        not (nat_beq p.p2p_status p2p_available),
        record p { p2p_check_id = check_id; p2p_status = p2p_available; updated_at = now },
      )
  unfolding update_p2p_status set_status
  reached alive = let left : ltb p.pending_ttl 1 ≡ false = ground arith in simp (uncounted, left)

  -- Without one, also a peer that was never tried, it is Unavailable.
  pub not_reached :
      p.pending_ttl ≡ 0
      → update_p2p_status now p2p_available check_id p ≡ (
        not (nat_beq p.p2p_status p2p_available),
        record p { p2p_check_id = []; p2p_status = p2p_unavailable; updated_at = now },
      )
  unfolding update_p2p_status set_status
  not_reached none_left =
      let left : ltb p.pending_ttl 1 ≡ true = ground arith in simp (uncounted, left)
