-- ===== src/P2p/Status/Expiry.antt =====
-- How long a peer that does not answer stays Pending in pkg/p2p/p2p.go.
use n2n_go.Base.{
  ℕ, ◌-◌, ◌≤◌, ◌≡◌, inl, inr, false, List, [], ◌∷◌, arith, ltb, if◌then◌else◌, Bool-cases, length,
}
use n2n_go.Base.Keys.{Text}
use n2n_go.P2p.Status.{
  p2p_unavailable, p2p_pending, p2p_unknown, Peer, update_p2p_status, count_down, set_status,
}

-- A peer that is being tried has attempts left.
abbrev pub IsAlive : Peer → Type 0
IsAlive p = p.p2p_status ≡ p2p_pending → 1 ≤ p.pending_ttl

-- After any `UpdateP2PStatus`, a peer that is Pending has an attempt left.
pub update_p2p_status-IsAlive :
    (now status : ℕ) (check_id : Text) (p : Peer)
    → IsAlive (update_p2p_status now status check_id p).1
unfolding update_p2p_status count_down set_status
update_p2p_status-IsAlive now status check_id p h = ground arith

-- Attempts to reach a peer, each with its time and its check id.
abbrev pub probes : List (ℕ × Text) → Peer → Peer
probes [] p = p
probes ((now, check_id) ∷ rest) p = probes rest (update_p2p_status now p2p_pending check_id p).1

stay_unavailable :
    (xs : List (ℕ × Text)) (p : Peer)
    → p.p2p_status ≡ p2p_unavailable
    → p.pending_ttl ≡ 0
    → (probes xs p).p2p_status ≡ p2p_unavailable
unfolding update_p2p_status count_down set_status
stay_unavailable [] p gone none_left = gone
stay_unavailable ((now, check_id) ∷ rest) p gone none_left =
    stay_unavailable rest (update_p2p_status now p2p_pending check_id p).1 (ground arith)
      (ground arith)

pending_for :
    (xs : List (ℕ × Text)) (p : Peer)
    → p.p2p_status ≡ p2p_pending
    → 1 ≤ p.pending_ttl
    → (probes xs p).p2p_status
      ≡ (if ltb (length xs) p.pending_ttl then p2p_pending else p2p_unavailable)
unfolding update_p2p_status count_down set_status
pending_for [] p pending left = ground arith
pending_for ((now, check_id) ∷ rest) p pending left =
    let q = (update_p2p_status now p2p_pending check_id p).1 in
    elim (Bool-cases (ltb 1 p.pending_ttl)) [
      | inl more ↦
          let left' : q.pending_ttl ≡ p.pending_ttl - 1 = ground arith in
          let step = pending_for rest q (ground arith) (ground arith) in ground arith
      | inr last ↦ let step = stay_unavailable rest q (ground arith) (ground arith) in ground arith
    ]

-- A peer whose status is Unknown is Pending after the first attempt and up to the thirtieth, and
-- Unavailable after the thirty-first and every later one, whatever its TTL was.
pub probes_lem :
    (xs : List (ℕ × Text)) (p : Peer)
    → p.p2p_status ≡ p2p_unknown
    → 1 ≤ length xs
    → (probes xs p).p2p_status ≡ (if ltb (length xs) 31 then p2p_pending else p2p_unavailable)
unfolding update_p2p_status count_down set_status
probes_lem [] p unknown some_try = absurd (omega arith)
probes_lem ((now, check_id) ∷ rest) p unknown some_try =
    let q = (update_p2p_status now p2p_pending check_id p).1 in
    let step = pending_for rest q (ground arith) (ground arith) in
    let full : q.pending_ttl ≡ 30 = ground arith in ground arith

-- An attempt on a Pending peer reports no change, also where it is the last one and makes the peer
-- Unavailable.
pub expiry_unreported :
    (now : ℕ) (check_id : Text) (p : Peer)
    → p.p2p_status ≡ p2p_pending
    → let (changed, q) = update_p2p_status now p2p_pending check_id p in
      (changed ≡ false)
      × (q.p2p_status ≡ (if ltb 1 p.pending_ttl then p2p_pending else p2p_unavailable))
unfolding update_p2p_status count_down set_status
expiry_unreported now check_id p pending = (ground arith, ground arith)
