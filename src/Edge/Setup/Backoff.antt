-- ===== src/Edge/Setup/Backoff.antt =====
-- The delays between the attempts of `handleWSS` to connect again.
-- The delay after a series of attempts, each of which connects or not; a connection is lost again
-- before the next attempt.
use n2n_go.Base.{ℕ, ◌≤◌, Bool, true, false, List, [], ◌∷◌, arith}
use n2n_go.Edge.Setup.{first_delay, reconnect, last_delay, backed_off}
use n2n_go.Edge.State.{EdgeClient, EdgeEnv}

unfoldable pub delay_after : EdgeEnv → List Bool → ℕ → EdgeClient → ℕ
delay_after env [] delay e = delay
delay_after env (connects ∷ rest) delay e =
    let (turn, next, after) = reconnect env true connects delay e in
    delay_after env rest next (record after { has_wss = false })

abbrev InRange : ℕ → Type 0
InRange delay = (first_delay ≤ delay) × (delay ≤ last_delay)

reconnect-InRange :
    (env : EdgeEnv) (connects : Bool) (delay : ℕ) (e : EdgeClient)
    → InRange delay
    → InRange (reconnect env true connects delay e).1
unfolding reconnect backed_off
reconnect-InRange env true delay e h = (omega arith, omega arith)
reconnect-InRange env false delay e h = ground arith

-- Whichever attempts succeed, the edge never waits less than 3 or more than 60 seconds before the
-- next one.
delay_in_range :
    (env : EdgeEnv) (attempts : List Bool) (delay : ℕ) (e : EdgeClient)
    → (first_delay ≤ delay) × (delay ≤ last_delay)
    → (first_delay ≤ delay_after env attempts delay e)
      × (delay_after env attempts delay e ≤ last_delay)
unfolding delay_after
delay_in_range env [] delay e h = h
delay_in_range env (connects ∷ rest) delay e h =
    let r = reconnect env true connects delay e in
    delay_in_range env rest r.1 (record r.2 { has_wss = false })
      (reconnect-InRange env connects delay e h)
