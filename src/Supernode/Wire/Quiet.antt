-- ===== src/Supernode/Wire/Quiet.antt =====
-- Sending changes nothing but what was sent and the two counters of packets.
use n2n_go.Base.{
  ℕ, ◌≡◌, refl, ◌∙◌, inl, inr, Option, none, some, List, [], ◌∷◌, arith, ltb, Bool-cases,
}
use n2n_go.Base.Exec.{ok, err, and_then, Result, state_of}
use n2n_go.Base.Keys.{Text, ◌==◌, text_eq, nat_eq}
use n2n_go.Base.Maps.{values}
use n2n_go.Errors.{Error}
use n2n_go.Net.{Addr, tcp, udp, nil_addr, IpAddr, wss}
use n2n_go.Protocol.Mac.{HardwareAddr}
use n2n_go.Supernode.State.{Edge, Community, Supernode, Env}
use n2n_go.Supernode.State.Messages.{Reply}
use n2n_go.Supernode.Wire.{
  forward_packet, broadcast_struct, write_udp, struct_packet, addr_string, all_edges, send_struct,
  relayed, deliver, send_one, write_wss, broadcast, send_via, tally, send_all, send_packet_to,
  count_sent, edge_behind, send_by_type,
}

-- A supernode without its trace and those counters.
abbrev pub core : Supernode → Supernode
core s = record s {
  sent = [];
  stats = record s.stats { packets_forwarded = 0; packets_dropped = 0 };
}

module _ (env : Env) where
  write_wss-core :
      (conn packet : Text) (s : Supernode) → core (state_of (write_wss env conn packet s)) ≡ core s
  unfolding write_wss
  write_wss-core conn packet s = elim (Bool-cases (env.wss_write conn packet)) [
    | inl e ↦ rw e
    | inr e ↦ rw e
  ]

  write_udp-core :
      (ip : IpAddr) (port : ℕ) (packet : Text) (s : Supernode)
      → core (state_of (write_udp env ip port packet s)) ≡ core s
  unfolding write_udp
  write_udp-core ip port packet s = elim (Bool-cases (env.udp_write packet ip port)) [
    | inl e ↦ rw e
    | inr e ↦ rw e
  ]

  deliver-core :
      (packet : Text) (e : Edge) (s : Supernode) → core (state_of (deliver env packet e s)) ≡ core s
  unfolding deliver
  deliver-core packet e s = ground (
    arith,
    write_wss-core e.wss_conn_id packet s,
    write_udp-core e.public_ip e.public_port packet s,
  )

  pub forward_packet-core :
      (packet : Text) (e : Edge) (s : Supernode)
      → core (state_of (forward_packet env packet e s)) ≡ core s
  unfolding forward_packet
  forward_packet-core packet e s = go (relayed packet)
    where
      go :
          (r : Result Error Text)
          → core (state_of (and_then (r, s) (λ p. deliver env p e))) ≡ core s
      go (ok p) = deliver-core p e s
      go (err x) = refl

  tally-core : (n : ℕ) (r : Result Error (Unit {0}) × Supernode) → core (tally n r).1 ≡ core r.1
  unfolding tally
  tally-core n (ok _, s) = refl
  tally-core n (err x, s) = refl

  pub send_one-core :
      (packet sender : Text) (e : Edge) (st : ℕ × Supernode)
      → core (send_one env packet sender e st).1 ≡ core st.1
  unfolding send_one
  send_one-core packet sender e (n, s) = elim (Bool-cases (e.mac_addr == sender)) [
    | inl own ↦ rw own
    | inr other ↦
        rw other (tally-core n (forward_packet env packet e s) ∙ forward_packet-core packet e s)
  ]

  send_all-core :
      (packet sender : Text) (es : List Edge) (st : ℕ × Supernode)
      → core (send_all env packet sender es st).1 ≡ core st.1
  unfolding send_all
  send_all-core packet sender [] st = refl
  send_all-core packet sender (e ∷ es) st =
      send_all-core packet sender es (send_one env packet sender e st)
      ∙ send_one-core packet sender e st

  count_sent-core : (st : ℕ × Supernode) → core (count_sent st) ≡ core st.1
  count_sent-core (n, s) = elim (Bool-cases (ltb 0 n)) [ inl e ↦ rw e | inr e ↦ rw e ]

  pub broadcast-core :
      (packet : Text) (cm : Community) (sender : Text) (s : Supernode)
      → core (broadcast env packet cm sender s) ≡ core s
  unfolding broadcast
  broadcast-core packet cm sender s =
      count_sent-core (send_all env packet sender (all_edges s cm) (0, s))
      ∙ send_all-core packet sender (all_edges s cm) (0, s)

  send_by_type-core :
      (packet : Text) (addr : Addr) (s : Supernode)
      → core (state_of (send_by_type env packet addr s)) ≡ core s
  unfolding send_by_type
  send_by_type-core packet nil_addr s = refl
  send_by_type-core packet (udp ip port) s = write_udp-core ip port packet s
  send_by_type-core packet (tcp ip port) s = refl
  send_by_type-core packet (wss conn) s = ground (arith, write_wss-core conn packet s)

  send_via-core :
      (packet : Text) (addr : Addr) (o : Option Edge) (s : Supernode)
      → core (state_of (send_via env packet addr o s)) ≡ core s
  unfolding send_via
  send_via-core packet addr none s = send_by_type-core packet addr s
  send_via-core packet addr (some e) s = forward_packet-core packet e s

  send_packet_to-core :
      (packet : Text) (addr : Addr) (s : Supernode)
      → core (state_of (send_packet_to env packet addr s)) ≡ core s
  unfolding send_packet_to
  send_packet_to-core packet nil_addr s = refl
  send_packet_to-core packet addr s =
      send_via-core packet addr (edge_behind s (addr_string env addr) (values s.edges_by_mac)) s

  pub send_struct-core :
      (p : Reply) (community : Text) (dst : HardwareAddr) (addr : Addr) (s : Supernode)
      → core (state_of (send_struct env p community dst addr s)) ≡ core s
  unfolding send_struct
  send_struct-core p community dst addr s = go (struct_packet env p community dst)
    where
      go :
          (r : Result Error Text)
          → core (state_of (and_then (r, s) (λ packet. send_packet_to env packet addr))) ≡ core s
      go (ok packet) = send_packet_to-core packet addr s
      go (err x) = refl

  pub broadcast_struct-core :
      (p : Reply) (cm : Community) (dst : HardwareAddr) (sender : Text) (s : Supernode)
      → core (state_of (broadcast_struct env p cm dst sender s)) ≡ core s
  unfolding broadcast_struct
  broadcast_struct-core p cm dst sender s = go (struct_packet env p cm.name dst)
    where
      go :
          (r : Result Error Text)
          → core
              (state_of (and_then (r, s) (λ packet t. (ok tt, broadcast env packet cm sender t))))
            ≡ core s
      go (ok packet) = broadcast-core packet cm sender s
      go (err x) = refl
