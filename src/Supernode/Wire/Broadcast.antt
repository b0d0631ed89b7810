-- ===== src/Supernode/Wire/Broadcast.antt =====
-- A broadcast reaches the other edges of the community and no one else.
use mathlib.Core.List.{append-nil, append_assoc}
use n2n_go.Base.{
  ℕ, ◌+◌, ◌%◌, ◌^◌, ◌≡◌, refl, sym, ap, subst, ◌∙◌, inl, inr, Option, none, some, List, [], ◌∷◌,
  ◌++◌, arith, if◌then◌else◌, Bool-cases, is_some, length, length-append,
}
use n2n_go.Base.Exec.{state_of, err, ok, result_of, Result}
use n2n_go.Base.Keys.{◌==◌, Text, text_eq, nat_eq}
use n2n_go.Base.Maps.{Map}
use n2n_go.Errors.{Error}
use n2n_go.Supernode.State.{Supernode, Env, Community, Edge, Sent}
use n2n_go.Supernode.Wire.{
  all_edges, forward_packet, count_dropped, emit, send_one, broadcast, count_sent, tally, send_all,
}
use n2n_go.Supernode.Wire.Quiet.{send_one-core}
use n2n_go.Supernode.Wire.Writes.{
  of_option, forward_to, writes, forward_packet-write, misses, missed_by, emit?, is_ok,
}

step_of : ℕ → Option Sent → Supernode → ℕ × Supernode
step_of n none s = (n, count_dropped s)
step_of n (some x) s = (n + 1, emit x s)

tally-write :
    (n : ℕ) (r : Result Error (Unit {0})) (t : Supernode) (o : Option Sent) (s : Supernode)
    → t ≡ emit? o s
    → is_ok r ≡ is_some o
    → tally n (r, t) ≡ step_of n o s
unfolding tally step_of
tally-write n (ok u) t none s e f = cc
tally-write n (ok u) t (some x) s e f = ap (λ z. (n + 1, z)) e
tally-write n (err x) t none s e f = ap (λ z. (n, count_dropped z)) e
tally-write n (err x) t (some y) s e f = cc

send_one-write :
    (env : Env) (packet sender : Text) (e : Edge) (n : ℕ) (s : Supernode)
    → send_one env packet sender e (n, s) ≡ (
        if e.mac_addr == sender
        then (n, s)
        else step_of n (forward_to env s.wss_connections packet e) s)
unfolding send_one
send_one-write env packet sender e n s = elim (Bool-cases (e.mac_addr == sender)) [
  | inl own ↦ rw own
  | inr other ↦ rw other (
      let (state, done) = forward_packet-write env packet e s in
      tally-write n (result_of (forward_packet env packet e s))
        (state_of (forward_packet env packet e s)) (forward_to env s.wss_connections packet e) s
        state done)
]

-- What the loop has done to the state, beside the count that it carries.
record Sends (out : List Sent) (missed : ℕ) (before after : ℕ × Supernode) : Type 0 where
  count : after.0 ≡ before.0 + length out
  sent : after.1.sent ≡ before.1.sent ++ out
  dropped :
      after.1.stats.packets_dropped % 2 ^ 64 ≡ (before.1.stats.packets_dropped + missed) % 2 ^ 64
  forwarded : after.1.stats.packets_forwarded ≡ before.1.stats.packets_forwarded

Sends-trans :
    {a b : List Sent} {m n : ℕ} {x y z : ℕ × Supernode}
    → Sends a m x y
    → Sends b n y z
    → Sends (a ++ b) (m + n) x z
Sends-trans {a} {b} {m} {n} {x} {y} {z} p q = record {
  count = omega (arith, p.count, q.count, length-append a b);
  sent = q.sent ∙ ap (λ t. t ++ b) p.sent ∙ append_assoc x.1.sent a b;
  dropped = omega (arith, p.dropped, q.dropped);
  forwarded = q.forwarded ∙ p.forwarded;
}

step_of-Sends :
    (n : ℕ) (o : Option Sent) (s : Supernode)
    → Sends (of_option o) (missed_by o) (n, s) (step_of n o s)
unfolding step_of of_option missed_by
step_of-Sends n none s = record {
  count = omega arith;
  sent = sym (append-nil s.sent);
  dropped = omega arith;
  forwarded = refl;
}
step_of-Sends n (some x) s = record {
  count = omega arith;
  sent = refl;
  dropped = omega arith;
  forwarded = refl;
}

Sends-refl : (st : ℕ × Supernode) → Sends [] 0 st st
Sends-refl (n, s) = record {
  count = omega arith;
  sent = sym (append-nil s.sent);
  dropped = omega arith;
  forwarded = refl;
}

module _ (env : Env) (packet sender : Text) where
  send_one-Sends :
      (e : Edge) (n : ℕ) (s : Supernode)
      → let o = forward_to env s.wss_connections packet e in
        Sends
          (if e.mac_addr == sender then [] else of_option o)
          (if e.mac_addr == sender then 0 else missed_by o)
          (n, s)
          (send_one env packet sender e (n, s))
  send_one-Sends e n s =
      rw (send_one-write env packet sender e n s) (elim (Bool-cases (e.mac_addr == sender)) [
        | inl own ↦ rw own (Sends-refl (n, s))
        | inr other ↦ rw other (step_of-Sends n (forward_to env s.wss_connections packet e) s)
      ])

  send_all-Sends :
      (conns : Map Text (Unit {0})) (es : List Edge) (st : ℕ × Supernode)
      → st.1.wss_connections ≡ conns
      → Sends
          (writes env conns packet sender es)
          (misses env conns packet sender es)
          st
          (send_all env packet sender es st)
  unfolding send_all writes misses
  send_all-Sends conns [] st same = Sends-refl st
  send_all-Sends conns (e ∷ es) (n, s) same =
      let st' = send_one env packet sender e (n, s) in
      let o = forward_to env conns packet e in
      let kept : st'.1.wss_connections ≡ conns =
        ap (λ t. t.wss_connections) (send_one-core env packet sender e (n, s)) ∙ same in
      Sends-trans
        (subst
          (λ c.
            Sends (if e.mac_addr == sender then [] else of_option (forward_to env c packet e))
              (if e.mac_addr == sender then 0 else missed_by (forward_to env c packet e)) (n, s)
              st')
          same (send_one-Sends e n s))
        (send_all-Sends conns es st' kept)

-- What a broadcast leaves of a supernode, from what stood there before.
pub record IsBroadcast (env : Env) (packet sender : Text) (cm : Community) (s t : Supernode)
    : Type 0 where
  pub sent : t.sent ≡ s.sent ++ writes env s.wss_connections packet sender (all_edges s cm)
  pub forwarded :
      t.stats.packets_forwarded % 2 ^ 64
      ≡ (s.stats.packets_forwarded
          + length (writes env s.wss_connections packet sender (all_edges s cm)))
        % 2 ^ 64
  pub dropped :
      t.stats.packets_dropped % 2 ^ 64
      ≡ (s.stats.packets_dropped + misses env s.wss_connections packet sender (all_edges s cm))
        % 2 ^ 64

count_sent_lem :
    (n : ℕ) (s : Supernode)
    → ((count_sent (n, s)).sent ≡ s.sent)
      × ((count_sent (n, s)).stats.packets_dropped ≡ s.stats.packets_dropped)
      × ((count_sent (n, s)).stats.packets_forwarded % 2 ^ 64
          ≡ (s.stats.packets_forwarded + n) % 2 ^ 64)
count_sent_lem n s = (ground arith, ground arith, ground arith)

-- A broadcast writes the packet, flagged as the supernode's where it has the 30-byte header, once to
-- each edge of the community that can be reached and is not the sender's, in order, and to nobody
-- else; the counters grow, modulo 2^64, by what was written and by what failed.
pub broadcast-IsBroadcast :
    (env : Env) (packet sender : Text) (cm : Community) (s : Supernode)
    → IsBroadcast env packet sender cm s (broadcast env packet cm sender s)
unfolding broadcast
broadcast-IsBroadcast env packet sender cm s =
    let st = send_all env packet sender (all_edges s cm) (0, s) in
    let p = send_all-Sends env packet sender s.wss_connections (all_edges s cm) (0, s) refl in
    let (same, fewer, more) = count_sent_lem st.0 st.1 in
    record {
      sent = same ∙ p.sent;
      forwarded = omega (arith, more, p.forwarded, p.count);
      dropped = omega (arith, fewer, p.dropped);
    }
