-- ===== src/Supernode/Process/Strangers.antt =====
-- What `ProcessPacket` of pkg/supernode/supernode.go makes of the pings and data of edges that it does
-- not know.
use n2n_go.Base.{
  ℕ, ◌≡◌, refl, ap, ◌∙◌, ◌⊎◌, inl, inr, true, false, Option, none, some, [], ◌∷◌, arith, nat_beq,
  nat_beq_iff, Option-cases,
}
use n2n_go.Base.Exec.{state_of, err, Result, ok}
use n2n_go.Base.Keys.{Text, text_eq, nat_eq}
use n2n_go.Base.Maps.{get}
use n2n_go.Errors.{Error}
use n2n_go.Net.{IpAddr, udp}
use n2n_go.Protocol.Fuze.{version_v_fuze}
use n2n_go.Protocol.Message.{RawMessage, new_raw_message, handle, edge_mac_addr}
use n2n_go.Protocol.Spec.{type_ping, type_data, type_retry_register_request}
use n2n_go.Supernode.Community.{get_edge}
use n2n_go.Supernode.Forward.{forward_unicast, forward_with_fall_back}
use n2n_go.Supernode.Handlers.{handle_ping_message, handle_data_message}
use n2n_go.Supernode.Process.{
  count_processed, process_packet, sn_message_handlers, process_datagram, outcome, retry_register,
}
use n2n_go.Supernode.Registration.{get_community, get_community_for_edge}
use n2n_go.Supernode.State.{Supernode, Env, Community, Sent}
use n2n_go.Supernode.Wire.{write_packet}
use n2n_go.Supernode.Wire.Answers.{write_packet_once}
use n2n_go.Supernode.Wire.Writes.{emit?}

-- The header names a community that does not exist, or one in which its sender is not.
abbrev pub IsStranger : RawMessage → Supernode → Type 0
IsStranger r s =
    (cm : Community)
    → get r.header.community_id s.communities ≡ some cm
    → get (edge_mac_addr r) cm.edges ≡ none

-- The two errors after which an edge is asked to register again.
data IsUnknown : Error → Type 0 where
  no_edge : IsUnknown Error.unknown_edge
  no_community : IsUnknown Error.community_not_found

refused_as :
    (r : RawMessage) (s : Supernode)
    → IsStranger r s
    → (x : Error) × IsUnknown x × (get_community s r ≡ err x)
unfolding get_community_for_edge get_edge
refused_as r s stranger = elim (Option-cases (get r.header.community_id s.communities)) [
  | inl missing ↦ (Error.community_not_found, no_community, ground (arith, missing))
  | inr (cm, found) ↦ (Error.unknown_edge, no_edge, ground (arith, found, stranger cm found))
]

-- Neither kind of packet is forwarded.
unforwarded :
    (env : Env) (r : RawMessage) (s : Supernode) {x : Error}
    → get_community s r ≡ err x
    → (forward_unicast env r s ≡ (err x, s)) × (forward_with_fall_back env r s ≡ (err x, s))
unfolding forward_unicast forward_with_fall_back
unforwarded env r s refused = (rw refused refl, rw refused refl)

by_type :
    (env : Env) (r : RawMessage) (s : Supernode) (kind : ℕ)
    → r.header.packet_type ≡ kind
    → handle (sn_message_handlers env) r s ≡ (elim (get kind (sn_message_handlers env)) [
      | none ↦ (err Error.no_handler, s)
      | some fn ↦ fn r s
    ])
unfolding handle
by_type env r s kind typed =
    ap
      (λ (k : ℕ).
        elim (get k (sn_message_handlers env)) as (λ x. Result Error (Unit {0}) × Supernode) [
          | none ↦ (err Error.no_handler, s)
          | some fn ↦ fn r s
        ])
      typed

handled :
    (env : Env) (r : RawMessage) (s : Supernode) {x : Error}
    → (r.header.packet_type ≡ type_ping) ⊎ (r.header.packet_type ≡ type_data)
    → get_community s r ≡ err x
    → handle (sn_message_handlers env) r s ≡ (err x, s)
unfolding handle get handle_ping_message handle_data_message
handled env r s (inl ping) refused =
    let typed : nat_beq r.header.packet_type type_ping ≡ true =
      (nat_beq_iff r.header.packet_type type_ping).1 ping in
    by_type env r s type_ping ping ∙ rw typed (unforwarded env r s refused).0
handled env r s (inr message) refused =
    let typed : nat_beq r.header.packet_type type_data ≡ true =
      (nat_beq_iff r.header.packet_type type_data).1 message in
    by_type env r s type_data message ∙ rw typed (unforwarded env r s refused).1

asked_to_register :
    (env : Env) (ip : IpAddr) (port : ℕ) (s : Supernode) {x : Error}
    → IsUnknown x
    → outcome env (udp ip port) (err x, s)
      ≡ (ok tt, state_of (write_packet env type_retry_register_request [] [] [] (udp ip port) s))
unfolding outcome retry_register
asked_to_register env ip port s no_edge = refl
asked_to_register env ip port s no_community = refl

-- A ping or a data packet of an edge that the supernode does not know in the community of its header is
-- not forwarded: `ProcessPacket` counts it and asks the address that it came from, over UDP, to register
-- again. The request is one write at most, and nothing else of the supernode changes.
pub outsiders_refused :
    (env : Env) (b : ℕ) (bs : Text) (ip : IpAddr) (port : ℕ) (r : RawMessage) (s : Supernode)
    → nat_beq b version_v_fuze ≡ false
    → new_raw_message (b ∷ bs) (udp ip port) ≡ ok r
    → (r.header.packet_type ≡ type_ping) ⊎ (r.header.packet_type ≡ type_data)
    → IsStranger r s
    → let asked =
        state_of (
          write_packet env type_retry_register_request [] [] []
            (udp ip port)
            (count_processed s)) in
      (process_packet env (b ∷ bs) (udp ip port) s ≡ (ok tt, asked))
      × ((o : Option Sent) × (asked ≡ emit? o (count_processed s)))
unfolding process_packet process_datagram
outsiders_refused env b bs ip port r s plain read kind stranger =
    let t = count_processed s in
    let (x, unknown, refused) = refused_as r t stranger in
    let step : process_packet env (b ∷ bs) (udp ip port) s
        ≡ outcome env (udp ip port) (handle (sn_message_handlers env) r t) =
      rw (plain, process_datagram, read) refl in
    (
      step
          ∙ ap (outcome env (udp ip port)) (handled env r t kind refused)
          ∙ asked_to_register env ip port t unknown,
      write_packet_once env type_retry_register_request [] [] [] ip port t,
    )
