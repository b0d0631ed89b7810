-- ===== src/Supernode/Community/Refresh.antt =====
-- Who may refresh an edge by `RefreshEdge` of pkg/supernode/community.go, and what that changes.
use mathlib.Core.Path.{subst₂}
use n2n_go.Base.{
  ◌≡◌, refl, sym, inl, inr, Bool, false, some, arith, nat_beq, Bool-cases, Option-cases,
}
use n2n_go.Base.Exec.{ok}
use n2n_go.Base.Keys.{◌==◌, text_beq_iff, Text, eq_refl, text_eq, nat_eq}
use n2n_go.Base.Maps.{get}
use n2n_go.Net.{is_nil_addr}
use n2n_go.Protocol.Message.{edge_mac_addr, RawMessage}
use n2n_go.Supernode.Community.{refresh_edge, refreshed, socket_changed, write_edge, refresh_found}
use n2n_go.Supernode.State.{Ref, Supernode, Env, Community}

-- What a heartbeat leaves of the edge `ref`.
pub record IsRefreshed (env : Env) (r : RawMessage) (ref : Ref) (changed : Bool) (s t : Supernode)
    : Type 0 where
  pub heartbeat : (t.heap ref).last_heartbeat ≡ env.now
  pub sequence : (t.heap ref).last_sequence ≡ r.header.sequence
  pub changed_socket : changed ≡ socket_changed (s.heap ref) (t.heap ref)
  -- the identity of the edge stays
  pub same_mac : (t.heap ref).mac_addr ≡ (s.heap ref).mac_addr
  pub same_machine : (t.heap ref).machine_id ≡ (s.heap ref).machine_id
  pub same_community : (t.heap ref).community ≡ (s.heap ref).community
  pub same_vip : (t.heap ref).virtual_ip ≡ (s.heap ref).virtual_ip
  -- and so do the other edges and all else of the supernode
  pub others : (q : Ref) → nat_beq q ref ≡ false → t.heap q ≡ s.heap q
  pub rest : record t { heap = s.heap } ≡ s

refreshed_state :
    (env : Env) (r : RawMessage) (ref : Ref) (s : Supernode)
    → let edge' = refreshed env r (s.heap ref) in
      IsRefreshed env r ref (socket_changed (s.heap ref) edge') s (write_edge ref edge' s)
refreshed_state env r ref s = record {
  heartbeat = ground arith;
  sequence = ground arith;
  changed_socket = rw (eq_refl ref) refl;
  same_mac = ground arith;
  same_machine = ground arith;
  same_community = ground arith;
  same_vip = ground arith;
  others = λ q other. rw other refl;
  rest = refl;
}

-- A heartbeat that `RefreshEdge` accepts is from a member of the community whose stored machine id
-- is the one decrypted. It sets the edge's time and sequence number, keeps its address, machine
-- id, community and virtual address, reports whether its socket changed, and leaves the other
-- edges and all else of the supernode.
pub refresh_edge_ok :
    (env : Env) (cm : Community) (id : Text) (r : RawMessage) (s : Supernode) {changed : Bool}
    {t : Supernode}
    → refresh_edge env cm id r s ≡ (ok changed, t)
    → (ref : Ref) × (get (edge_mac_addr r) cm.edges ≡ some ref)
      × ((s.heap ref).machine_id ≡ id)
      × IsRefreshed env r ref changed s t
unfolding refresh_edge refresh_found
refresh_edge_ok env cm id r s {changed} {t} e =
    elim (Option-cases (get (edge_mac_addr r) cm.edges)) [
      | inl absent ↦ absurd (ground (arith, absent))
      | inr (ref, listed) ↦ elim (Bool-cases (id == (s.heap ref).machine_id)) [
        | inr other ↦ absurd (ground (arith, listed, other))
        | inl same ↦ elim (Bool-cases (is_nil_addr r.from_addr)) [
          | inl nowhere ↦ absurd (ground (arith, listed, same, nowhere))
          | inr somewhere ↦
              let edge' = refreshed env r (s.heap ref) in
              let b : socket_changed (s.heap ref) edge' ≡ changed =
                ground (arith, listed, same, somewhere) in
              let u : write_edge ref edge' s ≡ t = ground (arith, listed, same, somewhere) in
              (
                ref,
                listed,
                sym ((text_beq_iff id (s.heap ref).machine_id).0 same),
                subst₂ (λ x y. IsRefreshed env r ref x s y) b u (refreshed_state env r ref s),
              )
        ]
      ]
    ]
