-- ===== src/Edge/Requests/Register.antt =====
-- The registration of pkg/edge, read by pkg/supernode.
use n2n_go.Base.{
  ◌%◌, ◌≡◌, sym, ap, subst, ◌∙◌, not, Option, none, some, [], ◌∷◌, ◌++◌, arith, if◌then◌else◌,
}
use n2n_go.Base.Bytes.{byte_at}
use n2n_go.Base.Exec.{or_fail, ok, err, and_then-ok, or_fail_ok}
use n2n_go.Base.Keys.{Text}
use n2n_go.Edge.Requests.{registration, encrypted_machine_id, request_register}
use n2n_go.Edge.Requests.Asked.{to_supernode_ok}
use n2n_go.Edge.State.{EdgeSent, register_request, EdgeEnv, EdgeClient}
use n2n_go.Edge.Wire.Headers.{HasMac}
use n2n_go.Edge.Wire.Sends.{route}
use n2n_go.Errors.{Error}
use n2n_go.Machine.Mac.{generate_mac, ext_generate_mac}
use n2n_go.Machine.Mac.Shape.{ext_generate_mac_lem, IsLocalUnicast}
use n2n_go.Net.{Addr}
use n2n_go.Protocol.Datagram.{pack}
use n2n_go.Protocol.Hash.{hash_community}
use n2n_go.Protocol.Header.{
  ProtoVHeader, id_bytes, get_src_mac_addr, has_src_mac_addr, Id6, bytes_to_mac,
}
use n2n_go.Protocol.Mac.{mac_string, HardwareAddr, is_nil}
use n2n_go.Protocol.Message.{
  Message, message_from_packet-pack, community_hash, edge_mac_addr, message_from_packet, RawMessage,
}
use n2n_go.Protocol.Spec.{type_register_request}
use n2n_go.Supernode.Registration.{validate_edge_claimed_mac_addr}
use n2n_go.Supernode.Registration.Claims.{validate_exact}
use n2n_go.Supernode.State.{Env}
use n2n_go.Supernode.State.Messages.{RegisterRequest}

abbrev pub local_mac : (e : EdgeClient) → IsLocalUnicast e.mac_addr → HasMac e
local_mac e v = record { size = v.six; bytes = v.bytes }

bytes_to_mac-id_bytes : (a : Id6) → byte_at 0 (id_bytes a) % 4 ≡ 2 → bytes_to_mac a ≡ id_bytes a
unfolding bytes_to_mac
bytes_to_mac-id_bytes a bits = ground arith

-- The address that a header names.
pub edge_mac_addr-source :
    (r : RawMessage) (mac : HardwareAddr)
    → IsLocalUnicast mac
    → id_bytes r.header.source_id ≡ mac
    → edge_mac_addr r ≡ mac_string mac
unfolding edge_mac_addr has_src_mac_addr get_src_mac_addr
edge_mac_addr-source r mac v named =
    let bits = ap (λ (m : Text). byte_at 0 m % 4) named ∙ v.bits in
    let plain = bytes_to_mac-id_bytes r.header.source_id bits in
    ap (λ (m : Text). if not (is_nil m) then mac_string m else []) plain ∙ ap mac_string named

-- The two ends of a registration: what the supernode undoes of what the edge does.
pub record AgreeOnRegistration (env : EdgeEnv) (sn : Env) (e : EdgeClient) (key : Text)
    : Type 0 where
  pub decrypts :
      (enc : Text) → env.encrypt key e.machine_id ≡ some enc → sn.decrypt enc ≡ some e.machine_id
  pub decodes :
      (enc encoded : Text)
      → env.marshal (register_request (registration e enc)) ≡ some encoded
      → sn.unmarshal_register encoded ≡ some (registration e enc)

encrypted_machine_id_ok :
    (env : EdgeEnv) (e : EdgeClient) {key enc : Text}
    → e.sn_pub_key ≡ some key
    → encrypted_machine_id env e ≡ ok enc
    → env.encrypt key e.machine_id ≡ some enc
unfolding encrypted_machine_id
encrypted_machine_id_ok env e {key} {enc} held run =
    or_fail_ok Error.encrypt_failed (env.encrypt key e.machine_id) (
      ap
        (λ (o : Option Text). elim o [
          | none ↦ err Error.panic
          | some k ↦ or_fail Error.encrypt_failed (env.encrypt k e.machine_id)
        ])
        (sym held)
      ∙ run)

module _ (e : EdgeClient)
    (generated : generate_mac (some e.machine_id) e.community ≡ ok e.mac_addr) where
  as_supernode : ext_generate_mac e.community e.machine_id ≡ ok e.mac_addr
  as_supernode =
      let (mac, theirs, ours, unicast) = ext_generate_mac_lem e.community e.machine_id in
      theirs ∙ sym ours ∙ generated

  pub generated_unicast : IsLocalUnicast e.mac_addr
  generated_unicast =
      let (mac, theirs, ours, unicast) = ext_generate_mac_lem e.community e.machine_id in
      let same : mac ≡ e.mac_addr = (let both = sym ours ∙ generated in cc) in
      subst IsLocalUnicast same unicast

-- The registration that an edge sends is one that the supernode accepts: where the edge's address is
-- generated from its machine id and its community, and the supernode decrypts and decodes what the
-- edge encrypts and encodes, the packet goes to the supernode, and the supernode reads out of it the
-- edge's address and community, and validates them to the edge's machine id.
pub request_register_accepted :
    (env : EdgeEnv) (sn : Env) (e : EdgeClient) (key : Text) (addr : Addr) {t : EdgeClient}
    → generate_mac (some e.machine_id) e.community ≡ ok e.mac_addr
    → e.sn_pub_key ≡ some key
    → AgreeOnRegistration env sn e key
    → request_register env e ≡ (ok tt, t)
    → (x : EdgeSent) × (packet : Text) × (m : Message RegisterRequest) × (t.sent ≡ e.sent ++ x ∷ [])
      × (route e.has_wss e.supernode_addr packet ≡ some x)
      × (message_from_packet type_register_request sn.unmarshal_register packet addr ≡ ok m)
      × (edge_mac_addr m.raw ≡ mac_string e.mac_addr)
      × (community_hash m.raw ≡ hash_community m.msg.community_name)
      × (validate_edge_claimed_mac_addr sn
            (edge_mac_addr m.raw)
            m.msg.encrypted_machine_id
            m.msg.community_name
          ≡ ok e.machine_id)
unfolding request_register
request_register_accepted env sn e key addr {t} generated held agree run =
    let (enc, made, run1) = and_then-ok (encrypted_machine_id env e, e) _ run in
    let unicast = generated_unicast e generated in
    let (payload, encoded, sent) =
      to_supernode_ok env (register_request (registration e enc)) e (local_mac e unicast) run1 in
    let (m, read, same, header, from) =
      message_from_packet-pack type_register_request sn.unmarshal_register sent.header
        (registration e enc) payload addr sent.names_edge.fits sent.names_edge.typed
        (agree.decodes enc payload encoded) in
    let named =
      edge_mac_addr-source m.raw e.mac_addr unicast
        (ap (λ (h : ProtoVHeader). id_bytes h.source_id) header ∙ sent.names_edge.source) in
    (
      sent.write,
      pack sent.header payload,
      m,
      sent.appended,
      sent.routed,
      read,
      named,
      ap (λ (h : ProtoVHeader). h.community_id) header
          ∙ sent.names_edge.community
          ∙ ap (λ (q : RegisterRequest). hash_community q.community_name) (sym same),
      subst
          (λ (q : RegisterRequest).
            validate_edge_claimed_mac_addr sn (edge_mac_addr m.raw) q.encrypted_machine_id
              q.community_name
            ≡ ok e.machine_id)
          (sym same)
          ((validate_exact sn (edge_mac_addr m.raw) enc e.community e.machine_id).1 (
            agree.decrypts enc (encrypted_machine_id_ok env e held made),
            e.mac_addr,
            as_supernode e generated,
            sym named,
          )),
    )
