-- ===== src/Supernode/Community/Update.antt =====
-- What `EdgeUpdate` leaves behind.
use mathlib.Core.Path.{subst₂}
use n2n_go.Base.{ℕ, ◌≡◌, refl, ap, inl, inr, some, arith, Bool-cases, Option-cases}
use n2n_go.Base.Exec.{and_then, ok, or_fail, state_of, and_then-ok}
use n2n_go.Base.Keys.{◌==◌, Text, text_eq, nat_eq}
use n2n_go.Base.Maps.{get-put_self, put, get}
use n2n_go.Errors.{Error}
use n2n_go.Protocol.Message.{edge_mac_addr, RawMessage}
use n2n_go.Supernode.Community.{
  register_new, new_edge, edge_update, set_edge_cached_info, insert_edge, register_known,
}
use n2n_go.Supernode.State.{Supernode, Edge, Env, Community, Ref}

-- What `EdgeUpdate` leaves: the community has the edge under its address, and the edge is fresh.
pub record IsMember (env : Env) (r : RawMessage) (name : Text) (h : ℕ) (ref : Ref) (t : Supernode)
    : Type 0 where
  pub community : Community
  pub stored : get h t.communities ≡ some community
  pub named : community.name ≡ name
  pub listed : get (edge_mac_addr r) community.edges ≡ some ref
  pub fresh : (t.heap ref).last_heartbeat ≡ env.now
  pub sequence : (t.heap ref).last_sequence ≡ r.header.sequence

module _ (env : Env) (h : ℕ) (cm : Community) (r : RawMessage) where
  inserted_state :
      (e : Edge) (s : Supernode)
      → e.last_heartbeat ≡ env.now
      → e.last_sequence ≡ r.header.sequence
      → IsMember env r cm.name h s.next_ref (state_of (insert_edge env h cm r e s))
  unfolding insert_edge set_edge_cached_info
  inserted_state e s now seq = record {
    community = record cm { edges = put (edge_mac_addr r) s.next_ref cm.edges };
    stored =
        get-put_self h (record cm { edges = put (edge_mac_addr r) s.next_ref cm.edges })
          s.communities;
    named = refl;
    listed = get-put_self (edge_mac_addr r) s.next_ref cm.edges;
    fresh = ground arith;
    sequence = ground arith;
  }

  inserted :
      (e : Edge) (s : Supernode) {ref : Ref} {t : Supernode}
      → e.last_heartbeat ≡ env.now
      → e.last_sequence ≡ r.header.sequence
      → insert_edge env h cm r e s ≡ (ok ref, t)
      → IsMember env r cm.name h ref t
  unfolding insert_edge
  inserted e s {ref} {t} now seq done =
      let key : s.next_ref ≡ ref = ground arith in
      subst₂ (λ a b. IsMember env r cm.name h a b) key (ap (λ z. z.1) done)
        (inserted_state e s now seq)

  known :
      (ref : Ref) (s : Supernode) {ref' : Ref} {t : Supernode}
      → get h s.communities ≡ some cm
      → get (edge_mac_addr r) cm.edges ≡ some ref
      → register_known env cm r ref s ≡ (ok ref', t)
      → IsMember env r cm.name h ref' t
  unfolding register_known
  known ref s {ref'} {t} stored listed e = elim (Bool-cases (cm.name == (s.heap ref).community)) [
    | inr other ↦ absurd (ground (arith, other))
    | inl same ↦ record {
      community = cm;
      stored = ground arith;
      named = refl;
      listed = ground arith;
      fresh = ground arith;
      sequence = ground arith;
    }
  ]

  -- A registration that `EdgeUpdate` accepts leaves the edge, new or known, listed in the
  -- community under its address, with the time and the sequence number of the message.
  pub edge_update_ok :
      (desc machine_id : Text) (s : Supernode) {ref : Ref} {t : Supernode}
      → get h s.communities ≡ some cm
      → edge_update env h cm r desc machine_id s ≡ (ok ref, t)
      → IsMember env r cm.name h ref t
  unfolding edge_update register_new
  edge_update_ok desc machine_id s {ref} {t} stored e =
      elim (Option-cases (get (edge_mac_addr r) cm.edges)) [
        | inr (old, listed) ↦ known old s stored listed (ground (arith, listed))
        | inl absent ↦
            let fresh : register_new env h cm r desc machine_id s ≡ (ok ref, t) =
              ground (arith, absent) in
            let (nvip, _, rest) =
              and_then-ok
                (or_fail Error.ip_allocation (env.request_ip cm.subnet (edge_mac_addr r)), s)
                (λ nvip t.
                  and_then (or_fail Error.ip_parse (env.parse_addr nvip), t)
                    (λ vip. insert_edge env h cm r (new_edge env cm r desc machine_id vip)))
                fresh in
            let (vip, _, done) =
              and_then-ok (or_fail Error.ip_parse (env.parse_addr nvip), s)
                (λ vip. insert_edge env h cm r (new_edge env cm r desc machine_id vip)) rest in
            inserted (new_edge env cm r desc machine_id vip) s refl refl done
      ]
