-- ===== src/Supernode/Registration/Claims.antt =====
-- A registration is accepted only for the address that the sender's machine id generates, and puts
-- the edge into the community of that name.
use mathlib.Core.Path.{subst₂}
use n2n_go.Base.{
  ℕ, ◌≡◌, refl, sym, ap, subst, ◌∙◌, ◌↔◌, ◌⊎◌, inl, inr, Bool, true, false, Option, none, some,
  arith, nat_beq, if◌then◌else◌, nat_beq_iff, Bool-cases, Option-cases,
}
use n2n_go.Base.Exec.{or_fail, ok, and_then-ok, and_then, err}
use n2n_go.Base.Keys.{Text, text_beq_iff, ◌==◌, text_eq, nat_eq}
use n2n_go.Base.Maps.{get-put_self, get}
use n2n_go.Errors.{Error}
use n2n_go.Machine.Mac.{hash_key, ext_generate_mac_with, ext_generate_mac}
use n2n_go.Protocol.Hash.{hash_community}
use n2n_go.Protocol.Mac.{HardwareAddr, mac_string}
use n2n_go.Protocol.Message.{RawMessage, edge_mac_addr}
use n2n_go.Supernode.Community.{edge_update}
use n2n_go.Supernode.Community.Update.{edge_update_ok, IsMember}
use n2n_go.Supernode.Network.{propose_virtual_network}
use n2n_go.Supernode.Registration.{
  count_registered, register_community, register_edge, finish_register_community,
  validate_edge_claimed_mac_addr, counted, add_community, new_community,
}
use n2n_go.Supernode.State.{Env, Supernode, Ref, Prefix, Community}
use n2n_go.Supernode.State.Messages.{RegisterRequest}

validate_step :
    (env : Env) (claimed encrypted name d : Text)
    → env.decrypt encrypted ≡ some d
    → validate_edge_claimed_mac_addr env claimed encrypted name ≡ (
        if mac_string (ext_generate_mac_with d name hash_key 12345) == claimed
        then ok d
        else err Error.mac_mismatch)
unfolding validate_edge_claimed_mac_addr ext_generate_mac
validate_step env claimed encrypted name d got = rw (got, validate_edge_claimed_mac_addr)

passed :
    (b : Bool) (d id : Text)
    → (if b then ok d else err Error.mac_mismatch) ≡ ok id
    → (b ≡ true) × (d ≡ id)
passed true d id e = (refl, ground arith)
passed false d id e = cc

validated :
    (env : Env) (claimed encrypted name id : Text)
    → (env.decrypt encrypted ≡ none) ⊎ ((d : Text) × (env.decrypt encrypted ≡ some d))
    → validate_edge_claimed_mac_addr env claimed encrypted name ≡ ok id
    → (env.decrypt encrypted ≡ some id)
      × (mac_string (ext_generate_mac_with id name hash_key 12345) ≡ claimed)
unfolding validate_edge_claimed_mac_addr
validated env claimed encrypted name id (inl failed) e = absurd (ground arith)
validated env claimed encrypted name id (inr (d, got)) e =
    let mac = λ (x : Text). mac_string (ext_generate_mac_with x name hash_key 12345) in
    let (fits, same) =
      passed (mac d == claimed) d id (sym (validate_step env claimed encrypted name d got) ∙ e) in
    (got ∙ ap some same, sym (ap mac same) ∙ (text_beq_iff (mac d) claimed).0 fits)

-- `ValidateEdgeClaimedMACAddr` returns a machine id exactly where the encrypted id decrypts to it
-- and the address that it generates for the community prints as the claimed one.
pub validate_exact :
    (env : Env) (claimed encrypted name id : Text)
    → (validate_edge_claimed_mac_addr env claimed encrypted name ≡ ok id) ↔ (
        (env.decrypt encrypted ≡ some id)
        × (mac : HardwareAddr) × (ext_generate_mac name id ≡ ok mac)
        × (mac_string mac ≡ claimed))
unfolding ext_generate_mac
validate_exact env claimed encrypted name id = (
  λ e.
      let (got, fits) =
        validated env claimed encrypted name id (Option-cases (env.decrypt encrypted)) e in
      (got, ext_generate_mac_with id name hash_key 12345, refl, fits),
  λ (got, mac, made, fits).
      let same : ext_generate_mac_with id name hash_key 12345 ≡ mac = ground arith in
      validate_step env claimed encrypted name id got
      ∙ rw (
          (text_beq_iff (mac_string (ext_generate_mac_with id name hash_key 12345)) claimed).1
            (ap mac_string same ∙ fits)),
)

made_ok :
    (env : Env) (name : Text) (prefix : Prefix) (cm : Community)
    → new_community env name prefix ≡ ok cm
    → cm.name ≡ name
unfolding new_community
made_ok env name prefix cm e = ground arith

added_ok :
    (h : ℕ) (cm : Community) (s : Supernode) {name : Text} {k : ℕ} {t : Supernode}
    → cm.name ≡ name
    → add_community h cm s ≡ (ok k, t)
    → (k ≡ h) × ((c : Community) × (get h t.communities ≡ some c) × (c.name ≡ name))
unfolding add_community
added_ok h cm s {name} {k} {t} named e = (
  ground arith,
  (
    cm,
    ap (λ z. get h z.communities) (sym (ap (λ z. z.1) e)) ∙ get-put_self h cm s.communities,
    named,
  ),
)

finish_ok :
    (env : Env) (name : Text) (h : ℕ) (found : Option Community) (s : Supernode) {k : ℕ}
    {t : Supernode}
    → found ≡ get h s.communities
    → finish_register_community env name h found s ≡ (ok k, t)
    → (k ≡ h) × ((cm : Community) × (get h t.communities ≡ some cm) × (cm.name ≡ name))
unfolding finish_register_community
finish_ok env name h (some cm) s at e = elim (Bool-cases (cm.name == name)) [
  | inr other ↦ absurd (ground (arith, other))
  | inl same ↦
      (ground (arith, same), (cm, ground (arith, same), (text_beq_iff cm.name name).0 same))
]
finish_ok env name h none s at e =
    let (prefix, _, rest) =
      and_then-ok (propose_virtual_network env s.net_allocator name, s)
        (λ prefix t. and_then (new_community env name prefix, t) (λ cm. add_community h cm)) e in
    let (cm, made, added) =
      and_then-ok (new_community env name prefix, s) (λ cm. add_community h cm) rest in
    added_ok h cm s (made_ok env name prefix cm made) added

register_step :
    (env : Env) (name : Text) (h : ℕ) (s : Supernode)
    → nat_beq h (hash_community name) ≡ true
    → register_community env name h s ≡ finish_register_community env name h (get h s.communities) s
unfolding register_community
register_step env name h s same = rw same

-- The community that `RegisterCommunity` returns is stored under the hash of the name asked for,
-- and has that name.
register_community_ok :
    (env : Env) (name : Text) (h : ℕ) (s : Supernode) {k : ℕ} {t : Supernode}
    → register_community env name h s ≡ (ok k, t)
    → (k ≡ h)
      × (h ≡ hash_community name)
      × ((cm : Community) × (get h t.communities ≡ some cm) × (cm.name ≡ name))
unfolding register_community
register_community_ok env name h s e = elim (Bool-cases (nat_beq h (hash_community name))) [
  | inr other ↦ absurd (ground (arith, other))
  | inl same ↦
      let (k, stored) =
        finish_ok env name h (get h s.communities) s refl
          (sym (register_step env name h s same) ∙ e) in
      (k, (nat_beq_iff h (hash_community name)).0 same, stored)
]

counting_keeps :
    (env : Env) (r : RawMessage) (name : Text) (h : ℕ) (ref : Ref) (s : Supernode)
    → IsMember env r name h ref s
    → IsMember env r name h ref (count_registered s)
counting_keeps env r name h ref s m = record {
  community = m.community;
  stored = m.stored;
  named = m.named;
  listed = m.listed;
  fresh = m.fresh;
  sequence = m.sequence;
}

counted_ok :
    (env : Env) (r : RawMessage) (name : Text) (h ref₀ : ℕ) (s : Supernode) {ref : Ref} {k : ℕ}
    {t : Supernode}
    → IsMember env r name h ref₀ s
    → counted h ref₀ s ≡ (ok (ref, k), t)
    → (k ≡ h) × IsMember env r name h ref t
unfolding counted
counted_ok env r name h ref₀ s {ref} {k} {t} m e =
    let same : ref₀ ≡ ref = ground arith in
    (
      ground arith,
      subst₂ (λ a b. IsMember env r name h a b) same (ap (λ z. z.1) e)
          (counting_keeps env r name h ref₀ s m),
    )

-- What is left of `RegisterEdge` once the community is there.
enlisted :
    (env : Env) (r : RawMessage) (m : RegisterRequest) (id : Text) (h : ℕ) (u : Supernode)
    (cm : Community) {ref : Ref} {k : ℕ} {t : Supernode}
    → get h u.communities ≡ some cm
    → cm.name ≡ m.community_name
    → and_then (edge_update env h cm r m.edge_desc id u) (λ ref. counted h ref) ≡ (ok (ref, k), t)
    → (k ≡ h) × IsMember env r m.community_name h ref t
enlisted env r m id h u cm stored named e =
    let (ref₀, updated, rest) =
      and_then-ok (edge_update env h cm r m.edge_desc id u) (λ ref. counted h ref) e in
    let after = (edge_update env h cm r m.edge_desc id u).1 in
    let member = edge_update_ok env h cm r m.edge_desc id u stored (λ i. (updated i, after)) in
    counted_ok env r m.community_name h ref₀ after
      (subst (λ n. IsMember env r n h ref₀ after) named member) rest

-- Where `RegisterEdge` accepts a registration, the encrypted id decrypts, the address in the
-- header is the one that it generates for the named community, the header's community id is the
-- hash of that name, and the edge is listed under its address in the community of that name,
-- stored under that id, with the time and the sequence number of the message.
pub register_edge_ok :
    (env : Env) (r : RawMessage) (m : RegisterRequest) (s : Supernode) {ref : Ref} {h : ℕ}
    {t : Supernode}
    → register_edge env r m s ≡ (ok (ref, h), t)
    → ((id : Text) × (mac : HardwareAddr) × (env.decrypt m.encrypted_machine_id ≡ some id)
        × (ext_generate_mac m.community_name id ≡ ok mac)
        × (mac_string mac ≡ edge_mac_addr r))
      × (r.header.community_id ≡ hash_community m.community_name)
      × (h ≡ r.header.community_id)
      × IsMember env r m.community_name h ref t
unfolding register_edge counted
register_edge_ok env r m s {ref} {h} {t} e =
    let (id, valid, e1) =
      and_then-ok
        (
          validate_edge_claimed_mac_addr env (edge_mac_addr r) m.encrypted_machine_id
              m.community_name,
          s,
        )
        _ e in
    let (k, reg, e2) =
      and_then-ok (register_community env m.community_name r.header.community_id s) _ e1 in
    let u = (register_community env m.community_name r.header.community_id s).1 in
    let (cm, found, e3) = and_then-ok (or_fail Error.panic (get k u.communities), u) _ e2 in
    let (same, hashed, held) =
      register_community_ok env m.community_name r.header.community_id s (λ i. (reg i, u)) in
    let (cm', stored, named) = held in
    let (got, mac, made, fits) =
      (validate_exact env (edge_mac_addr r) m.encrypted_machine_id m.community_name id).0 valid in
    let at : get k u.communities ≡ some cm' = ap (λ x. get x u.communities) same ∙ stored in
    let equal : cm' ≡ cm = ground arith in
    let (kept, member) =
      enlisted env r m id k u cm (at ∙ ap some equal) (sym (ap (λ c. c.name) equal) ∙ named) e3 in
    (
      (id, mac, got, made, fits),
      hashed,
      kept ∙ same,
      subst (λ x. IsMember env r m.community_name x ref t) (sym kept) member,
    )
