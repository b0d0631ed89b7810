-- ===== src/Supernode/Registration/Race.antt =====
-- `RegisterCommunity` of pkg/supernode/registration.go, alone and between two others' steps.
use n2n_go.Base.{
  ℕ, ◌≡◌, refl, sym, ap, ◌∙◌, ◌⊎◌, inl, inr, true, none, some, [], arith, nat_beq, nat_beq_iff,
  Bool-cases, Option-cases, is_some,
}
use n2n_go.Base.Exec.{and_then-ok, and_then, state_of, err, ok, Result}
use n2n_go.Base.Keys.{◌==◌, Text, text_eq, nat_eq}
use n2n_go.Base.Maps.{get, get-put_self, get-put}
use n2n_go.Errors.{Error}
use n2n_go.Protocol.Hash.{hash_community}
use n2n_go.Supernode.Community.{get_edge, set_community}
use n2n_go.Supernode.Network.{propose_virtual_network}
use n2n_go.Supernode.Registration.{
  finish_register_community, get_community_for_edge, register_community, add_community,
  new_community,
}
use n2n_go.Supernode.Registration.Unregister.{get_community_for_edge_gone}
use n2n_go.Supernode.State.{Prefix, Env, Supernode, Community}

found_in :
    (s : Supernode) (mac : Text) (k : ℕ) {cm : Community}
    → get_community_for_edge s mac k ≡ ok cm
    → (get k s.communities ≡ some cm) × (is_some (get_edge s cm mac) ≡ true)
unfolding get_community_for_edge
found_in s mac k {cm} e = elim (Option-cases (get k s.communities)) [
  | inl absent ↦ absurd (ground (arith, absent))
  | inr (c, there) ↦ elim (Bool-cases (is_some (get_edge s c mac))) [
    | inr absent ↦ absurd (ground (arith, there, absent))
    | inl known ↦
        let same : c ≡ cm = ground (arith, there, known) in
        (there ∙ ap some same, sym (ap (λ x. is_some (get_edge s x mac)) same) ∙ known)
  ]
]

found_still :
    (mac : Text) (k : ℕ) (s t : Supernode) {cm : Community}
    → t.heap ≡ s.heap
    → get k t.communities ≡ get k s.communities
    → get_community_for_edge s mac k ≡ ok cm
    → get_community_for_edge t mac k ≡ ok cm
unfolding get_community_for_edge get_edge
found_still mac k s t {cm} heap same e =
    let (there, known) = found_in s mac k e in
    rw (get_community_for_edge, same ∙ there, get_edge, heap) (rw known refl)

-- The registration of a community that was not found changes nothing, or stores one.
added_or_kept :
    (env : Env) (name : Text) (h : ℕ) (s : Supernode)
    → let t = state_of (finish_register_community env name h none s) in
      (t ≡ s) ⊎ ((cm : Community) × (t ≡ set_community h cm s))
unfolding finish_register_community add_community
added_or_kept env name h s = proposed (propose_virtual_network env s.net_allocator name)
  where
    created :
        (r : Result Error Community)
        → let t = state_of (and_then (r, s) (λ cm. add_community h cm)) in
          (t ≡ s) ⊎ ((cm : Community) × (t ≡ set_community h cm s))
    created (ok cm) = inr (cm, refl)
    created (err e) = inl refl

    proposed :
        (r : Result Error Prefix)
        → let t = state_of (
            and_then
              (r, s)
              (λ prefix t.
                and_then (new_community env name prefix, t) (λ cm. add_community h cm))) in
          (t ≡ s) ⊎ ((cm : Community) × (t ≡ set_community h cm s))
    proposed (ok prefix) = created (new_community env name prefix)
    proposed (err e) = inl refl

finish_keeps :
    (env : Env) (name mac : Text) (h k : ℕ) (s : Supernode) {cm : Community}
    → get_community_for_edge s mac k ≡ ok cm
    → get_community_for_edge
        (state_of (finish_register_community env name h (get h s.communities) s))
        mac
        k
      ≡ ok cm
unfolding finish_register_community
finish_keeps env name mac h k s {cm} e = elim (Option-cases (get h s.communities)) [
  | inr (c, there) ↦ rw there (some_keeps c)
  | inl absent ↦ rw absent (none_keeps absent (added_or_kept env name h s))
]
  where
    some_keeps :
        (c : Community)
        → get_community_for_edge (state_of (finish_register_community env name h (some c) s)) mac k
          ≡ ok cm
    some_keeps c = elim (Bool-cases (c.name == name)) [
      | inl same ↦ rw (finish_register_community, state_of, same) e
      | inr other ↦ rw (finish_register_community, state_of, other) e
    ]

    none_keeps :
        get h s.communities ≡ none
        → let t = state_of (finish_register_community env name h none s) in
          (t ≡ s) ⊎ ((c : Community) × (t ≡ set_community h c s))
          → get_community_for_edge t mac k ≡ ok cm
    none_keeps absent (inl same) = ap (λ t. get_community_for_edge t mac k) same ∙ e
    none_keeps absent (inr (c, added)) = elim (Bool-cases (nat_beq h k)) [
      | inl hit ↦
          let clash : get k s.communities ≡ none =
            ap (λ x. get x s.communities) (sym ((nat_beq_iff h k).0 hit)) ∙ absent in
          absurd (cc (clash, (found_in s mac k e).0))
      | inr other ↦
          ap (λ t. get_community_for_edge t mac k) added
          ∙ found_still mac k s (set_community h c s) refl
              (get-put h k c s.communities ∙ rw other refl) e
    ]

-- A `RegisterCommunity` that is not interrupted loses no edge: an edge that was found in its community
-- still is, whatever community is registered and whether that succeeds.
pub register_community_keeps :
    (env : Env) (name mac : Text) (h k : ℕ) (s : Supernode) {cm : Community}
    → get_community_for_edge s mac k ≡ ok cm
    → get_community_for_edge (state_of (register_community env name h s)) mac k ≡ ok cm
unfolding register_community finish_register_community
register_community_keeps env name mac h k s {cm} e =
    elim (Bool-cases (nat_beq h (hash_community name))) [
      | inr other ↦ rw (register_community, state_of, other) e
      | inl hashed ↦ rw (register_community, state_of, hashed) (finish_keeps env name mac h k s e)
    ]

new_community-empty :
    (env : Env) (name mac : Text) (prefix : Prefix) (cm : Community)
    → new_community env name prefix ≡ ok cm
    → get mac cm.edges ≡ none
unfolding new_community get
new_community-empty env name mac prefix cm made =
    let empty : cm.edges ≡ [] = ground arith in ap (get mac) empty

-- The part of `RegisterCommunity` under the write lock, after the read lock showed no community: where it succeeds, no
-- edge is found in the community any more, whatever was registered in it in between.
pub finish_register_community_stale :
    (env : Env) (name mac : Text) (h : ℕ) (s : Supernode) {k : ℕ} {t : Supernode}
    → finish_register_community env name h none s ≡ (ok k, t)
    → get_community_for_edge t mac h ≡ err Error.unknown_edge
unfolding finish_register_community add_community
finish_register_community_stale env name mac h s {k} {t} e =
    let (prefix, _, rest) =
      and_then-ok (propose_virtual_network env s.net_allocator name, s)
        (λ prefix t. and_then (new_community env name prefix, t) (λ cm. add_community h cm)) e in
    let (cm, made, added) =
      and_then-ok (new_community env name prefix, s) (λ cm. add_community h cm) rest in
    ap (λ z. get_community_for_edge z.1 mac h) (sym added)
    ∙ get_community_for_edge_gone env h mac cm (set_community h cm s)
        (get-put_self h cm s.communities) (new_community-empty env name mac prefix cm made)
