-- ===== src/Supernode/Registration/Unregister.antt =====
-- What is left of an edge after `UnregisterEdge` of pkg/supernode/registration.go.
use n2n_go.Base.{
  ℕ, ◌≡◌, refl, sym, ap, subst, ◌∙◌, inl, inr, Option, none, some, [], if◌then◌else◌, Option-cases,
  is_some,
}
use n2n_go.Base.Exec.{state_of, err, Result, ok}
use n2n_go.Base.Keys.{Text, text_eq, nat_eq}
use n2n_go.Base.Maps.{get-remove_self, get}
use n2n_go.Errors.{Error}
use n2n_go.P2p.Peer.{event_unregister}
use n2n_go.Protocol.Message.{edge_mac_addr, RawMessage}
use n2n_go.Supernode.Community.{get_edge}
use n2n_go.Supernode.Community.Leave.{unregister_lem, HasLeft}
use n2n_go.Supernode.Registration.{
  on_edge_unregistered, get_community_for_edge, new_peer_info_event, deref, unregister_edge,
  unregistered_then, forget_edge,
}
use n2n_go.Supernode.State.{Ref, Supernode, add_u64, Community, Env}
use n2n_go.Supernode.Wire.{broadcast_struct}
use n2n_go.Supernode.Wire.Quiet.{core, broadcast_struct-core}

-- The parts of a supernode that sending leaves, read off its `core`.
same_by_mac : (s t : Supernode) → core s ≡ core t → s.edges_by_mac ≡ t.edges_by_mac
same_by_mac s t e = ap (λ x. x.edges_by_mac) e

same_communities : (s t : Supernode) → core s ≡ core t → s.communities ≡ t.communities
same_communities s t e = ap (λ x. x.communities) e

same_unregistered :
    (s t : Supernode) → core s ≡ core t → s.stats.edges_unregistered ≡ t.stats.edges_unregistered
same_unregistered s t e = ap (λ x. x.stats.edges_unregistered) e

module _ (env : Env) (h : ℕ) (mac : Text) where
  pub on_edge_unregistered_lem :
      (cm : Community) (s : Supernode)
      → let (r, t) = on_edge_unregistered env h cm mac s in
        (r ≡ (if is_some (get mac s.edges_by_mac) then ok tt else err Error.panic))
        × (t.communities ≡ s.communities)
        × (get mac t.edges_by_mac ≡ none)
        × (t.stats.edges_unregistered ≡ (
            if is_some (get mac s.edges_by_mac)
            then add_u64 s.stats.edges_unregistered 1
            else s.stats.edges_unregistered))
  unfolding on_edge_unregistered forget_edge
  on_edge_unregistered_lem cm s = elim (Option-cases (get mac s.edges_by_mac)) [
    | inl absent ↦ (
      rw (on_edge_unregistered, absent) refl,
      rw (on_edge_unregistered, absent) refl,
      rw (on_edge_unregistered, absent) absent,
      rw (on_edge_unregistered, absent) refl,
    )
    | inr (ref, found) ↦
        let e = s.heap ref in
        let u = forget_edge env mac e s in
        let quiet =
          broadcast_struct-core env (new_peer_info_event env event_unregister e) (deref h cm s) []
            mac u in
        let t = state_of (
          broadcast_struct env (new_peer_info_event env event_unregister e) (deref h cm s) [] mac
            u) in
        (
          rw (on_edge_unregistered, found) refl,
          rw (on_edge_unregistered, found) (same_communities t u quiet),
          rw (on_edge_unregistered, found)
              (ap (get mac) (same_by_mac t u quiet) ∙ get-remove_self mac s.edges_by_mac),
          rw (on_edge_unregistered, found) (same_unregistered t u quiet),
        )
  ]

  pub get_community_for_edge_gone :
      (cm : Community) (t : Supernode)
      → get h t.communities ≡ some cm
      → get mac cm.edges ≡ none
      → get_community_for_edge t mac h ≡ err Error.unknown_edge
  unfolding get_community_for_edge get_edge
  get_community_for_edge_gone cm t stored gone =
      rw (get_community_for_edge, stored, get_edge, gone) refl

  get_community_for_edge_found :
      (cm : Community) (ref : Ref) (t : Supernode)
      → get h t.communities ≡ some cm
      → get mac cm.edges ≡ some ref
      → get_community_for_edge t mac h ≡ ok cm
  unfolding get_community_for_edge get_edge
  get_community_for_edge_found cm ref t stored member =
      rw (get_community_for_edge, stored, get_edge, member) refl

  -- What is claimed of the outcome of an unregistration, from the entry that the supernode had.
  abbrev pub Departed : Option Ref → Result Error (Unit {0}) × Supernode → Type 0
  Departed entry (result, t) =
      (result ≡ (if is_some entry then ok tt else err Error.panic))
      × (get_community_for_edge t mac h ≡ err Error.unknown_edge)
      × (get mac t.edges_by_mac ≡ none)

  on_edge_unregistered-Departed :
      (cm : Community) (s t : Supernode)
      → HasLeft h cm mac s t
      → Departed (get mac s.edges_by_mac) (on_edge_unregistered env h cm mac t)
  on_edge_unregistered-Departed cm s t left =
      let (result, kept, gone, _) = on_edge_unregistered_lem cm t in
      (
        result
            ∙ ap (λ m. if is_some (get mac m) then ok tt else err Error.panic)
                (ap (λ (z : Supernode). z.edges_by_mac) left.rest),
        get_community_for_edge_gone left.community (on_edge_unregistered env h cm mac t).1
            (ap (get h) kept ∙ left.stored) left.gone,
        gone,
      )

module _ (env : Env) (r : RawMessage) (s : Supernode) where
  -- The sender of an unregistration, a member of the community that the header names, is no longer found in
  -- the community or among the supernode's edges. The call succeeds where the supernode had the edge in its own map,
  -- and dereferences a nil pointer where it had not.
  pub unregister_edge_lem :
      (cm : Community) (ref : Ref)
      → get r.header.community_id s.communities ≡ some cm
      → get (edge_mac_addr r) cm.edges ≡ some ref
      → Departed env r.header.community_id
          (edge_mac_addr r)
          (get (edge_mac_addr r) s.edges_by_mac)
          (unregister_edge env r s)
  unfolding unregister_edge unregistered_then
  unregister_edge_lem cm ref stored member =
      let h = r.header.community_id in
      let mac = edge_mac_addr r in
      let found = get_community_for_edge_found env h mac cm ref s stored member in
      let (t, removed, left) = unregister_lem env h cm mac s ref member in
      subst (Departed env h mac (get mac s.edges_by_mac))
        (sym (rw (unregister_edge, found, removed) refl))
        (on_edge_unregistered-Departed env h mac cm s t left)
