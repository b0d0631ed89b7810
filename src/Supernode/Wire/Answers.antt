-- ===== src/Supernode/Wire/Answers.antt =====
-- `WritePacket` of pkg/supernode/wire.go makes one write at most, and changes nothing else.
use n2n_go.Base.{ℕ, ◌≡◌, refl, inl, inr, Option, none, some, Bool-cases}
use n2n_go.Base.Exec.{and_then, state_of, ok, err, Result}
use n2n_go.Base.Keys.{Text, text_eq, nat_eq}
use n2n_go.Base.Maps.{values}
use n2n_go.Errors.{Error}
use n2n_go.Net.{IpAddr, udp}
use n2n_go.Protocol.Datagram.{pack}
use n2n_go.Protocol.Header.{ProtoVHeader}
use n2n_go.Protocol.Mac.{HardwareAddr}
use n2n_go.Supernode.State.{Edge, Supernode, Sent, to_udp, Env}
use n2n_go.Supernode.Wire.{
  write_packet, addr_string, forward_packet, sn_header, write_udp, write_by_type, edge_behind,
  write_packet_to,
}
use n2n_go.Supernode.Wire.Writes.{forward_packet-write, emit?, forward_to}

module _ (env : Env) where
  -- At most one write.
  abbrev Once : Supernode → Supernode → Type 0
  Once s t = (o : Option Sent) × (t ≡ emit? o s)

  write_udp-Once :
      (ip : IpAddr) (port : ℕ) (packet : Text) (s : Supernode)
      → Once s (state_of (write_udp env ip port packet s))
  unfolding write_udp
  write_udp-Once ip port packet s = elim (Bool-cases (env.udp_write packet ip port)) [
    | inl done ↦ (some (to_udp packet ip port), rw done refl)
    | inr no_ ↦ (none, rw no_ refl)
  ]

  write_packet_to-Once :
      (packet : Text) (ip : IpAddr) (port : ℕ) (s : Supernode)
      → Once s (state_of (write_packet_to env packet (udp ip port) s))
  unfolding write_packet_to write_by_type
  write_packet_to-Once packet ip port s =
      go (edge_behind s (addr_string env (udp ip port)) (values s.edges_by_mac))
    where
      go :
          (o : Option Edge)
          → Once s (
              state_of {E = Error} {A = Unit {0}}
                (elim o as (λ x. Result Error (Unit {0}) × Supernode) [
                  | some e ↦ forward_packet env packet e s
                  | none ↦ write_udp env ip port packet s
                ]))
      go none = write_udp-Once ip port packet s
      go (some e) =
          (forward_to env s.wss_connections packet e, (forward_packet-write env packet e s).0)

  pub write_packet_once :
      (pt : ℕ) (community : Text) (dst : HardwareAddr) (payload : Text) (ip : IpAddr) (port : ℕ)
      (s : Supernode)
      → (o : Option Sent) × (state_of (write_packet env pt community dst payload (udp ip port) s)
          ≡ emit? o s)
  unfolding write_packet
  write_packet_once pt community dst payload ip port s = go (sn_header env pt community dst)
    where
      go :
          (h : Result Error ProtoVHeader)
          → Once s (
              state_of (
                and_then
                  (h, s)
                  (λ header. write_packet_to env (pack header payload) (udp ip port))))
      go (ok header) = write_packet_to-Once (pack header payload) ip port s
      go (err x) = (none, refl)
