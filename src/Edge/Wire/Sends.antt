-- ===== src/Edge/Wire/Sends.antt =====
-- What the three ways of sending of pkg/edge/wire.go do to an edge, and what they write.
-- Nothing of the edge is changed but its sequence number, its counter and what it has written.
use n2n_go.Base.{
  ℕ, ◌+◌, ◌%◌, ◌^◌, ◌≡◌, refl, sym, ap, subst, ◌∙◌, inl, inr, Bool, true, false, Option, none, some,
  arith, Bool-cases,
}
use n2n_go.Base.Exec.{err, state_of, Result, and_then, or_fail, ok}
use n2n_go.Base.Keys.{Text}
use n2n_go.Edge.State.{
  EdgeEnv, EdgeClient, UdpAddr, EdgeMessage, over_udp, Ed, EdgeSent, edge_packet_type, written,
  IoWrite, over_wss, failed, closed,
}
use n2n_go.Edge.Wire.{
  Strategy, transmit, send_edge_struct, emit_edge, edge_header, udp_addr_with_strategy, sent_as,
  to_socket,
}
use n2n_go.Errors.{Error}
use n2n_go.Protocol.Datagram.{pack}
use n2n_go.Protocol.Header.{copy_dest, copy_id}
use n2n_go.Protocol.Mac.{HardwareAddr}

abbrev sending : EdgeClient → EdgeClient → EdgeClient
sending e t = record e { seq = t.seq; packets_sent = t.packets_sent; sent = t.sent }

pub record OnlySends (e : EdgeClient) (t : EdgeClient) : Type 0 where
  pub kept : t ≡ sending e t

abbrev pub packet_of : EdgeSent → Text
packet_of (over_udp packet ip port) = packet
packet_of (over_wss packet) = packet

-- The write that an edge with or without a WSS connection makes for an address.
abbrev pub route : Bool → UdpAddr → Text → Option EdgeSent
route true socket packet = some (over_wss packet)
route false none packet = none
route false (some (ip, port)) packet = some (over_udp packet ip port)

sent_as-OnlySends :
    (o : IoWrite) (x : EdgeSent) (e : EdgeClient) → OnlySends e (state_of (sent_as o x e))
unfolding sent_as
sent_as-OnlySends written x e = record { kept = refl }
sent_as-OnlySends failed x e = record { kept = refl }
sent_as-OnlySends closed x e = record { kept = refl }

to_socket-OnlySends :
    (env : EdgeEnv) (packet : Text) (socket : UdpAddr) (e : EdgeClient)
    → OnlySends e (state_of (to_socket env packet socket e))
unfolding to_socket
to_socket-OnlySends env packet none e = record { kept = refl }
to_socket-OnlySends env packet (some (ip, port)) e =
    sent_as-OnlySends (env.udp_write packet ip port) (over_udp packet ip port) e

sent_as_ok :
    (o : IoWrite) (x : EdgeSent) (e : EdgeClient) {t : EdgeClient}
    → sent_as o x e ≡ (ok tt, t)
    → t ≡ emit_edge x e
unfolding sent_as
sent_as_ok written x e run = ground arith
sent_as_ok failed x e run = cc
sent_as_ok closed x e run = cc

to_socket_ok :
    (env : EdgeEnv) (packet : Text) (socket : UdpAddr) (e : EdgeClient) {t : EdgeClient}
    → to_socket env packet socket e ≡ (ok tt, t)
    → (x : EdgeSent) × (route false socket packet ≡ some x) × (t ≡ emit_edge x e)
unfolding to_socket
to_socket_ok env packet none e run = cc
to_socket_ok env packet (some (ip, port)) e run = (
  over_udp packet ip port,
  refl,
  sent_as_ok (env.udp_write packet ip port) (over_udp packet ip port) e run,
)

module _ (env : EdgeEnv) (packet : Text) (socket : UdpAddr) (e : EdgeClient) where
  over_wss_step :
      e.has_wss ≡ true
      → transmit env packet socket e ≡ sent_as (env.wss_write packet) (over_wss packet) e
  unfolding transmit
  over_wss_step on = rw on refl

  over_udp_step :
      e.has_wss ≡ false
      → e.has_conn ≡ true
      → transmit env packet socket e ≡ to_socket env packet socket e
  unfolding transmit
  over_udp_step off up = rw (off, up) refl

  unconnected :
      e.has_wss ≡ false
      → e.has_conn ≡ false
      → transmit env packet socket e ≡ (err Error.no_transport, e)
  unfolding transmit
  unconnected off down = rw (off, down) refl

  transmit-OnlySends : OnlySends e (state_of (transmit env packet socket e))
  transmit-OnlySends = elim (Bool-cases e.has_wss) [
    | inl on ↦
        by_step (over_wss_step on) (sent_as-OnlySends (env.wss_write packet) (over_wss packet) e)
    | inr off ↦ elim (Bool-cases e.has_conn) [
      | inl up ↦ by_step (over_udp_step off up) (to_socket-OnlySends env packet socket e)
      | inr down ↦ by_step (unconnected off down) (record { kept = refl })
    ]
  ]
    where
      by_step :
          {r : Result Error (Unit {0}) × EdgeClient}
          → transmit env packet socket e ≡ r
          → OnlySends e (state_of r)
          → OnlySends e (state_of (transmit env packet socket e))
      by_step {r} step only =
          subst (λ (q : Result Error (Unit {0}) × EdgeClient). OnlySends e (state_of q)) (sym step)
            only

  -- A send that succeeds is one write, to the WSS connection if there is one, and else to the socket.
  pub transmit_ok :
      {t : EdgeClient}
      → transmit env packet socket e ≡ (ok tt, t)
      → (x : EdgeSent) × (route e.has_wss socket packet ≡ some x) × (t ≡ emit_edge x e)
  transmit_ok run = elim (Bool-cases e.has_wss) [
    | inl on ↦ (
      over_wss packet,
      rw on refl,
      sent_as_ok (env.wss_write packet) (over_wss packet) e (sym (over_wss_step on) ∙ run),
    )
    | inr off ↦ elim (Bool-cases e.has_conn) [
      | inl up ↦
          let (x, routed, after) =
            to_socket_ok env packet socket e (sym (over_udp_step off up) ∙ run) in
          (x, ap (λ (b : Bool). route b socket packet) off ∙ routed, after)
      | inr down ↦ let no = sym (unconnected off down) ∙ run in absurd (cc)
    ]
  ]

pub route-packet_of :
    (wss : Bool) (socket : UdpAddr) (packet : Text) {x : EdgeSent}
    → route wss socket packet ≡ some x
    → packet_of x ≡ packet
route-packet_of true socket packet e = ground arith
route-packet_of false none packet e = cc
route-packet_of false (some (ip, port)) packet e = ground arith

pub OnlySends-trans : (e t u : EdgeClient) → OnlySends e t → OnlySends t u → OnlySends e u
OnlySends-trans e t u p q = record { kept = q.kept ∙ ap (λ (z : EdgeClient). sending z u) p.kept }

module _ {A B : Type 0} where
  -- What every part of a method keeps, the method keeps.
  pub and_then-OnlySends :
      (e : EdgeClient) (m : Result Error A × EdgeClient) (f : A → Ed B)
      → OnlySends e (state_of m)
      → ((a : A) (t : EdgeClient) → OnlySends t (state_of (f a t)))
      → OnlySends e (state_of (and_then m f))
  and_then-OnlySends e (ok a, t) f first rest =
      OnlySends-trans e t (state_of (f a t)) first (rest a t)
  and_then-OnlySends e (err x, t) f first rest = first

pub edge_header-OnlySends :
    (env : EdgeEnv) (kind : ℕ) (dst : HardwareAddr) (e : EdgeClient)
    → OnlySends e (state_of (edge_header env kind dst e))
unfolding edge_header
edge_header-OnlySends env kind dst e =
    let e' = record e { seq = (e.seq + 1) % 2 ^ 32 } in
    and_then-OnlySends e (copy_id e.mac_addr, e') _ (record { kept = refl })
      λ source. λ t.
        and_then-OnlySends t (copy_dest dst, t) _ (record { kept = refl })
          λ dest. λ u. record { kept = refl }

-- Sending a message changes nothing else, whether it succeeds or not.
pub send_edge_struct-OnlySends :
    (env : EdgeEnv) (m : EdgeMessage) (dst : HardwareAddr) (strategy : Strategy) (e : EdgeClient)
    → OnlySends e (state_of (send_edge_struct env m dst strategy e))
unfolding send_edge_struct
send_edge_struct-OnlySends env m dst strategy e =
    and_then-OnlySends e (udp_addr_with_strategy env e dst strategy, e) _ (record { kept = refl })
      λ socket. λ t.
        and_then-OnlySends t (edge_header env (edge_packet_type m) dst t) _
          (edge_header-OnlySends env (edge_packet_type m) dst t)
          λ header. λ u.
            and_then-OnlySends u (or_fail Error.encode_failed (env.marshal m), u) _
              (record { kept = refl })
              λ payload. λ v. transmit-OnlySends env (pack header payload) socket v
