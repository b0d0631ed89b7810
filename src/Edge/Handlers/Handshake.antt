-- ===== src/Edge/Handlers/Handshake.antt =====
-- How an edge registers again where its supernode has forgotten it.
use n2n_go.Base.{
  ◌≡◌, refl, sym, ap, subst, ◌∙◌, inl, inr, Bool, true, false, some, [], arith, nat_beq,
  if◌then◌else◌, Bool-cases, length,
}
use n2n_go.Base.Bytes.{IsBytes}
use n2n_go.Base.Exec.{and_then-ok, state_of, or_fail, and_then, Result, ok, err, or_fail_ok}
use n2n_go.Base.Keys.{Text}
use n2n_go.Edge.Handlers.{
  waiting_for_supernode, logged, handle_retry_register_request, handle_register_response_message,
  key_updated, handle_sn_public_secret_message, reregistered,
}
use n2n_go.Edge.Requests.{
  request_sn_public_key, request_register, send_peer_list_request, registration, is_waiting,
  encrypted_machine_id,
}
use n2n_go.Edge.Requests.Asked.{to_supernode_ok}
use n2n_go.Edge.State.{
  register_request, peer_list_request, EdgeMessage, EdgeEnv, EdgeClient, sn_public_secret,
}
use n2n_go.Edge.Wire.{enforce_supernode}
use n2n_go.Edge.Wire.Headers.{HasMac}
use n2n_go.Edge.Wire.Packets.{IsSentTo}
use n2n_go.Edge.Wire.Sends.{and_then-OnlySends, OnlySends, send_edge_struct-OnlySends}
use n2n_go.Errors.{Error}
use n2n_go.Protocol.Message.{to_message, Message, RawMessage}
use n2n_go.Protocol.Spec.{
  type_retry_register_request, type_register_response, type_sn_public_secret, type_register_request,
}
use n2n_go.Supernode.State.Messages.{SnPublicSecret, RegisterResponse}

pub logged_state : (r : Result Error (Unit {0}) × EdgeClient) → state_of (logged r) ≡ state_of r
logged_state (ok u, e) = refl
logged_state (err Error.panic, e) = refl
logged_state (err _, e) = refl

request_register-OnlySends :
    (env : EdgeEnv) (e : EdgeClient) → OnlySends e (state_of (request_register env e))
unfolding request_register
request_register-OnlySends env e =
    and_then-OnlySends e (encrypted_machine_id env e, e) _ (record { kept = refl })
      λ enc. λ t.
        send_edge_struct-OnlySends env (register_request (registration t enc)) [] enforce_supernode
          t

-- A request of the supernode to register again leaves the edge waiting for two answers.
retried :
    (env : EdgeEnv) (r : RawMessage) (e : EdgeClient)
    → nat_beq r.header.packet_type type_retry_register_request ≡ true
    → e.is_waiting_for_sn_retry_register_response ≡ false
    → handle_retry_register_request env r e
      ≡ and_then (request_sn_public_key env e) (λ _. λ t. (ok tt, waiting_for_supernode t))
unfolding handle_retry_register_request
retried env r e typed idle = simp (typed, idle)

-- The first message: the supernode is asked for its key, in one packet, and the edge waits.
abbrev pub key_request : EdgeMessage
key_request = sn_public_secret (record { is_request = true; pem_data = [] })

pub record HasAsked (env : EdgeEnv) (e t : EdgeClient) : Type 0 where
  pub waits : t.is_waiting_for_sn_retry_register_response ≡ true
  pub waits_for_key : t.is_waiting_for_sn_pub_key_update ≡ true
  pub payload : Text
  pub encoded : env.marshal key_request ≡ some payload
  pub request : IsSentTo e type_sn_public_secret e.supernode_addr payload t
  pub same_mac : t.mac_addr ≡ e.mac_addr

asked_again :
    (env : EdgeEnv) (r : RawMessage) (e : EdgeClient) {t : EdgeClient}
    → HasMac e
    → e.is_waiting_for_sn_retry_register_response ≡ false
    → handle_retry_register_request env r e ≡ (ok tt, t)
    → HasAsked env e t
unfolding handle_retry_register_request request_sn_public_key
asked_again env r e {t} mac idle run =
    elim (Bool-cases (nat_beq r.header.packet_type type_retry_register_request)) [
      | inr other ↦ absurd (ground (arith, other))
      | inl typed ↦
          let (u, sent, rest) =
            and_then-ok (request_sn_public_key env e) _ (sym (retried env r e typed idle) ∙ run) in
          let after = ap (λ (z : Result Error (Unit {0}) × EdgeClient). z.1) (sym rest) in
          let asked = state_of (request_sn_public_key env e) in
          let (payload, encoded, request) =
            to_supernode_ok env key_request e {t = asked} mac (λ i. (sent i, asked)) in
          let only = send_edge_struct-OnlySends env key_request [] enforce_supernode e in
          record {
            waits = ap (λ (z : EdgeClient). z.is_waiting_for_sn_retry_register_response) after;
            waits_for_key = ap (λ (z : EdgeClient). z.is_waiting_for_sn_pub_key_update) after;
            payload = payload;
            encoded = encoded;
            request = record {
              header = request.header;
              names_edge = request.names_edge;
              write = request.write;
              routed = request.routed;
              appended = ap (λ (z : EdgeClient). z.sent) after ∙ request.appended;
            };
            same_mac =
                ap (λ (z : EdgeClient). z.mac_addr) after
                ∙ ap (λ (z : EdgeClient). z.mac_addr) only.kept;
          }
    ]

-- The second message: the edge takes the key that it brings and registers under it, in one packet to
-- the supernode.
pub record HasRegistered (env : EdgeEnv) (r : RawMessage) (e t : EdgeClient) : Type 0 where
  pub secret : Message SnPublicSecret
  pub key : Text
  pub read : to_message type_sn_public_secret env.unmarshal_sn_public_secret r ≡ ok secret
  pub parsed : env.parse_public_key secret.msg.pem_data ≡ some key
  pub held : t.sn_pub_key ≡ some key
  pub has_key : t.is_waiting_for_sn_pub_key_update ≡ false
  pub machine : Text
  pub encrypted : env.encrypt key e.machine_id ≡ some machine
  pub payload : Text
  pub encoded : env.marshal (register_request (registration e machine)) ≡ some payload
  pub request : IsSentTo (key_updated key e) type_register_request e.supernode_addr payload t

key_taken :
    (env : EdgeEnv) (r : RawMessage) (e : EdgeClient) {t : EdgeClient}
    → HasMac e
    → e.is_waiting_for_sn_retry_register_response ≡ true
    → handle_sn_public_secret_message env r e ≡ (ok tt, t)
    → HasRegistered env r e t
unfolding handle_sn_public_secret_message request_register encrypted_machine_id
key_taken env r e {t} mac waits run =
    let (m, read, run1) =
      and_then-ok (to_message type_sn_public_secret env.unmarshal_sn_public_secret r, e) _ run in
    let (key, parsed, run2) =
      and_then-ok (or_fail Error.bad_public_key (env.parse_public_key m.msg.pem_data), e) _ run1 in
    let asks : request_register env (key_updated key e) ≡ (ok tt, t) =
      ap
        (λ (b : Bool).
          if b then request_register env (key_updated key e) else (ok tt, key_updated key e))
        (sym waits)
      ∙ run2 in
    let sends =
      subst (OnlySends (key_updated key e))
        (ap (λ (z : Result Error (Unit {0}) × EdgeClient). z.1) asks)
        (request_register-OnlySends env (key_updated key e)) in
    let (machine, made, run3) =
      and_then-ok (encrypted_machine_id env (key_updated key e), key_updated key e) _ asks in
    let (payload, encoded, request) =
      to_supernode_ok env (register_request (registration (key_updated key e) machine))
        (key_updated key e) (record { size = mac.size; bytes = mac.bytes }) run3 in
    record {
      secret = m;
      key = key;
      read = read;
      parsed = or_fail_ok Error.bad_public_key (env.parse_public_key m.msg.pem_data) parsed;
      held = ap (λ (z : EdgeClient). z.sn_pub_key) sends.kept;
      has_key = ap (λ (z : EdgeClient). z.is_waiting_for_sn_pub_key_update) sends.kept;
      machine = machine;
      encrypted = or_fail_ok Error.encrypt_failed (env.encrypt key e.machine_id) made;
      payload = payload;
      encoded = encoded;
      request = request;
    }

granted :
    (env : EdgeEnv) (r : RawMessage) (e : EdgeClient) (m : Message RegisterResponse)
    → to_message type_register_response env.unmarshal_register_response r ≡ ok m
    → m.msg.is_register_ok ≡ true
    → OnlySends (reregistered e) (state_of (handle_register_response_message env r e))
unfolding handle_register_response_message send_peer_list_request
granted env r e m read accepted =
    let step : handle_register_response_message env r e
        ≡ logged (send_peer_list_request env (reregistered e)) =
      simp (read, accepted) in
    subst (OnlySends (reregistered e))
      (sym (logged_state (send_peer_list_request env (reregistered e)))
        ∙ ap (λ (z : Result Error (Unit {0}) × EdgeClient). z.1) (sym step))
      (send_edge_struct-OnlySends env (peer_list_request (record { community_name = e.community }))
        [] enforce_supernode (reregistered e))

-- A registered edge that its supernode has forgotten comes back. Where it is told to register again and
-- neither of the first two handlers fails, the first message makes it ask the supernode for its key, in
-- one packet, and wait; the second makes it take the key that is answered and send the supernode one
-- packet with its registration, encrypted under that key. After a third message by which the supernode
-- consents, which is taken as given, it is registered, holds that key and waits for nothing, whether or
-- not its request for the peers can be sent.
pub reregisters :
    (env₁ env₂ env₃ : EdgeEnv) (retry answer consent : RawMessage) (e : EdgeClient)
    (m : Message RegisterResponse) {t u : EdgeClient}
    → HasMac e
    → e.is_waiting_for_sn_retry_register_response ≡ false
    → handle_retry_register_request env₁ retry e ≡ (ok tt, t)
    → handle_sn_public_secret_message env₂ answer t ≡ (ok tt, u)
    → to_message type_register_response env₃.unmarshal_register_response consent ≡ ok m
    → m.msg.is_register_ok ≡ true
    → let back = state_of (handle_register_response_message env₃ consent u) in
      HasAsked env₁ e t
      × HasRegistered env₂ answer t u
      × (is_waiting back ≡ false)
      × (back.registered ≡ true)
      × (back.sn_pub_key ≡ u.sn_pub_key)
reregisters env₁ env₂ env₃ retry answer consent e m {t} {u} mac idle first second read accepted =
    let asked = asked_again env₁ retry e mac idle first in
    let mac_t : HasMac t = record {
      size = ap (λ (a : Text). length a) asked.same_mac ∙ mac.size;
      bytes = subst IsBytes (sym asked.same_mac) mac.bytes;
    } in
    let done = key_taken env₂ answer t mac_t asked.waits second in
    let kept = (granted env₃ consent u m read accepted).kept in
    (
      asked,
      done,
      ap is_waiting kept ∙ rw done.has_key refl,
      ap (λ (z : EdgeClient). z.registered) kept,
      ap (λ (z : EdgeClient). z.sn_pub_key) kept,
    )
