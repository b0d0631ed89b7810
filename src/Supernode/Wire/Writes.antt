-- ===== src/Supernode/Wire/Writes.antt =====
-- Which writes forwarding makes: one for each edge that is reached.
use n2n_go.Base.{
  ℕ, ◌+◌, ◌≡◌, refl, Bool, true, false, not, ◌&&◌, Option, none, some, List, [], ◌∷◌, ◌++◌, arith,
  if◌then◌else◌, is_some,
}
use n2n_go.Base.Exec.{state_of, err, Result, and_then, result_of, ok}
use n2n_go.Base.Keys.{◌==◌, Text, text_eq, nat_eq}
use n2n_go.Base.Maps.{get, Map}
use n2n_go.Errors.{Error}
use n2n_go.Supernode.State.{to_udp, to_wss, Sent, Edge, Env, Supernode}
use n2n_go.Supernode.Wire.{deliver, relayed, write_udp, emit, write_wss, forward_packet, is_empty}

-- The write of a packet to an edge, where it succeeds.
unfoldable pub write_to : Env → Map Text (Unit {0}) → Text → Edge → Option Sent
write_to env conns packet e =
    if not (is_empty e.wss_conn_id)
    then if is_some (get e.wss_conn_id conns) && env.wss_write e.wss_conn_id packet
      then some (to_wss e.wss_conn_id packet)
      else none
    else if env.udp_write packet e.public_ip e.public_port
    then some (to_udp packet e.public_ip e.public_port)
    else none

-- The same, of what `forwardPacket` makes of a packet.
unfoldable pub forward_to : Env → Map Text (Unit {0}) → Text → Edge → Option Sent
forward_to env conns packet e = elim (relayed packet) [
  | ok p ↦ write_to env conns p e
  | err x ↦ none
]

abbrev pub emit? : Option Sent → Supernode → Supernode
emit? none s = s
emit? (some x) s = emit x s

abbrev pub is_ok {ℓ} : {E A : Type ℓ} → Result E A → Bool
is_ok (ok a) = true
is_ok (err e) = false

deliver-write :
    (env : Env) (packet : Text) (e : Edge) (s : Supernode)
    → (state_of (deliver env packet e s) ≡ emit? (write_to env s.wss_connections packet e) s)
      × (is_ok (result_of (deliver env packet e s))
          ≡ is_some (write_to env s.wss_connections packet e))
unfolding deliver write_to write_wss write_udp
deliver-write env packet e s = (ground arith, ground arith)

pub forward_packet-write :
    (env : Env) (packet : Text) (e : Edge) (s : Supernode)
    → (state_of (forward_packet env packet e s)
        ≡ emit? (forward_to env s.wss_connections packet e) s)
      × (is_ok (result_of (forward_packet env packet e s))
          ≡ is_some (forward_to env s.wss_connections packet e))
unfolding forward_packet forward_to
forward_packet-write env packet e s = go (relayed packet)
  where
    go :
        (r : Result Error Text)
        → (state_of (and_then (r, s) (λ p. deliver env p e))
            ≡ emit? (elim r [ ok p ↦ write_to env s.wss_connections p e | err x ↦ none ]) s)
          × (is_ok (result_of (and_then (r, s) (λ p. deliver env p e)))
              ≡ is_some {A = Sent}
                  (elim r [ ok p ↦ write_to env s.wss_connections p e | err x ↦ none ]))
    go (ok p) = deliver-write env p e s
    go (err x) = (refl, refl)

unfoldable pub of_option : {A : Type 0} → Option A → List A
of_option none = []
of_option (some a) = a ∷ []

unfoldable pub missed_by : {A : Type 0} → Option A → ℕ
missed_by none = 1
missed_by (some a) = 0

-- The writes to all the edges but the sender's.
unfoldable pub writes : Env → Map Text (Unit {0}) → Text → Text → List Edge → List Sent
writes env conns packet sender [] = []
writes env conns packet sender (e ∷ es) =
    (if e.mac_addr == sender then [] else of_option (forward_to env conns packet e))
    ++ writes env conns packet sender es

-- How many edges but the sender's could not be reached.
unfoldable pub misses : Env → Map Text (Unit {0}) → Text → Text → List Edge → ℕ
misses env conns packet sender [] = 0
misses env conns packet sender (e ∷ es) =
    (if e.mac_addr == sender then 0 else missed_by (forward_to env conns packet e))
    + misses env conns packet sender es
