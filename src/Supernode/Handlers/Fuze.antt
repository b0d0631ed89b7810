-- ===== src/Supernode/Handlers/Fuze.antt =====
-- The fast path crosses no community border.
use mathlib.Core.List.{append-nil}
use n2n_go.Base.{
  ◌≡◌, refl, sym, ap, ◌∙◌, ◌⊎◌, inl, inr, true, Option, none, some, [], ◌∷◌, ◌++◌, arith,
  Bool-cases,
}
use n2n_go.Base.Exec.{ok, err, state_of, Result}
use n2n_go.Base.Keys.{text_beq_iff, ◌==◌, Text, text_eq, nat_eq}
use n2n_go.Base.Maps.{get}
use n2n_go.Errors.{Error}
use n2n_go.Net.{Addr}
use n2n_go.Protocol.Fuze.{v_fuze_packet_dest_mac_addr}
use n2n_go.Protocol.Mac.{mac_string, HardwareAddr}
use n2n_go.Supernode.Handlers.{handle_v_fuze, fuze_between}
use n2n_go.Supernode.State.{Sent, Supernode, Edge, Ref, Env}
use n2n_go.Supernode.Wire.{addr_string, relayed, forward_packet}
use n2n_go.Supernode.Wire.Writes.{emit?, forward_to, forward_packet-write, of_option, write_to}

relayed_fuze :
    (packet : Text) {dst : HardwareAddr}
    → v_fuze_packet_dest_mac_addr packet ≡ ok dst
    → relayed packet ≡ ok packet
unfolding v_fuze_packet_dest_mac_addr relayed
relayed_fuze [] e = cc
relayed_fuze (b ∷ bs) e = ground arith

forwarded_as_is :
    (env : Env) (packet : Text) (e : Edge) (s : Supernode)
    → relayed packet ≡ ok packet
    → (state_of (forward_packet env packet e s)).sent
      ≡ s.sent ++ of_option (write_to env s.wss_connections packet e)
unfolding forward_to of_option
forwarded_as_is env packet e s plain =
    ap (λ t. t.sent) (forward_packet-write env packet e s).0
    ∙ rw (plain, forward_to) (emitted (write_to env s.wss_connections packet e))
  where
    emitted : (o : Option Sent) → (emit? o s).sent ≡ s.sent ++ of_option o
    emitted none = sym (append-nil s.sent)
    emitted (some x) = refl

between_lem :
    (env : Env) (packet : Text) (a b : Option Ref) (s : Supernode)
    → relayed packet ≡ ok packet
    → ((fuze_between env packet a b s).sent ≡ s.sent)
      ⊎ ((to_edge : Ref) × (from_edge : Ref) × (a ≡ some to_edge)
          × (b ≡ some from_edge)
          × ((s.heap to_edge).community ≡ (s.heap from_edge).community)
          × ((fuze_between env packet a b s).sent
              ≡ s.sent ++ of_option (write_to env s.wss_connections packet (s.heap to_edge))))
unfolding fuze_between
between_lem env packet none b s plain = inl refl
between_lem env packet (some d) none s plain = inl refl
between_lem env packet (some d) (some f) s plain =
    elim (Bool-cases ((s.heap d).community == (s.heap f).community)) [
      | inl same ↦ inr (
        d,
        f,
        refl,
        refl,
        (text_beq_iff (s.heap d).community (s.heap f).community).0 same,
        rw same (forwarded_as_is env packet (s.heap d) s plain),
      )
      | inr other ↦ inl (rw other)
    ]

Result-cases :
    {A : Type 0} (r : Result Error A) → ((a : A) × (r ≡ ok a)) ⊎ ((e : Error) × (r ≡ err e))
Result-cases (ok a) = inl (a, refl)
Result-cases (err e) = inr (e, refl)

-- A VFuze packet makes at most one write. It makes one only if the fast path is enabled, the
-- packet's destination and the sender's socket both belong to known edges, and these two edges are
-- of one community; the write is to the destination's edge, of the packet as it came.
pub handle_v_fuze_lem :
    (env : Env) (packet : Text) (addr : Addr) (s : Supernode)
    → ((handle_v_fuze env packet addr s).sent ≡ s.sent)
      ⊎ ((dst : HardwareAddr) × (to_edge : Ref) × (from_edge : Ref) × (s.enable_v_fuze ≡ true)
          × (v_fuze_packet_dest_mac_addr packet ≡ ok dst)
          × (get (mac_string dst) s.edges_by_mac ≡ some to_edge)
          × (get (addr_string env addr) s.edges_by_socket ≡ some from_edge)
          × ((s.heap to_edge).community ≡ (s.heap from_edge).community)
          × ((handle_v_fuze env packet addr s).sent
              ≡ s.sent ++ of_option (write_to env s.wss_connections packet (s.heap to_edge))))
unfolding handle_v_fuze
handle_v_fuze_lem env packet addr s = elim (Result-cases (v_fuze_packet_dest_mac_addr packet)) [
  | inr (e, bad) ↦ inl (rw (bad, handle_v_fuze))
  | inl (dst, good) ↦ elim (Bool-cases s.enable_v_fuze) [
    | inr off ↦ inl (rw (good, off, handle_v_fuze))
    | inl on ↦
        elim (between_lem env packet (get (mac_string dst) s.edges_by_mac)
          (get (addr_string env addr) s.edges_by_socket) s (relayed_fuze packet good)) [
            | inl same ↦ inl (rw (good, handle_v_fuze) (ground (arith, on, same)))
            | inr (t, f, ht, hf, hc, hs) ↦
                inr (
                  dst,
                  t,
                  f,
                  on,
                  good,
                  ht,
                  hf,
                  hc,
                  rw (good, handle_v_fuze) (ground (arith, on, hs)),
                )
          ]
  ]
]
