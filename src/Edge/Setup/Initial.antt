-- ===== src/Edge/Setup/Initial.antt =====
-- What an edge knows once it has registered for the first time.
use n2n_go.Base.{
  ◌≡◌, refl, sym, ap, ◌∙◌, inl, inr, Bool, true, false, not, some, [], ◌∷◌, arith, if◌then◌else◌,
  Bool-cases, Option-cases,
}
use n2n_go.Base.Exec.{state_of, err, and_then-ok, Result, ok}
use n2n_go.Base.Keys.{Text, eq_refl, ◌==◌, text_eq, nat_eq}
use n2n_go.Edge.Requests.{request_register}
use n2n_go.Edge.Setup.{initial_register, Reading, before_slash, read_answer, take_address}
use n2n_go.Edge.State.{EdgeClient, EdgeEnv}
use n2n_go.Errors.{Error}
use n2n_go.Net.{Addr}
use n2n_go.Protocol.Mac.{is_nil}
use n2n_go.Protocol.Message.{message_from_packet, Message}
use n2n_go.Protocol.Spec.{type_register_response}
use n2n_go.Supernode.State.Messages.{RegisterResponse}

read_answer_ok :
    (e : EdgeClient) (reading : Reading) {answer : Text × Addr}
    → read_answer e reading ≡ ok answer
    → reading.packet ≡ some answer
unfolding read_answer
read_answer_ok e reading {answer} run = elim (Option-cases reading.packet) [
  | inl missing ↦ absurd (ground (arith, missing))
  | inr (found, came) ↦ ground (arith, came)
]

is_nil-nonempty : (ip : Text) → (ip == []) ≡ false → is_nil ip ≡ false
is_nil-nonempty [] e =
    let nothing : Text = [] in
    let same : (nothing == nothing) ≡ true = eq_refl nothing in absurd (cc)
is_nil-nonempty (b ∷ bs) e = refl

addressed :
    (env : EdgeEnv) (m : RegisterResponse) (e : EdgeClient) {t : EdgeClient}
    → take_address env m e ≡ (ok tt, t)
    → (t.registered ≡ true)
      × (t.virtual_ip ≡ env.cidr_string m.virtual_ip m.masklen)
      × (is_nil t.parsed_virtual_ip ≡ false)
unfolding take_address
addressed env m e {t} run =
    let ip = env.resolver.parse_ip (before_slash (env.cidr_string m.virtual_ip m.masklen)) in
    elim (Bool-cases (ip == [])) [
      | inl missing ↦ absurd (ground (arith, missing))
      | inr parsed ↦
          let after : EdgeClient = record e {
            virtual_ip = env.cidr_string m.virtual_ip m.masklen;
            parsed_virtual_ip = ip;
            registered = true;
          } in
          let made : take_address env m e ≡ (ok tt, after) = simp parsed in
          let same = ap (λ (z : Result Error (Unit {0}) × EdgeClient). z.1) (sym run ∙ made) in
          (
            ap (λ (z : EdgeClient). z.registered) same,
            ap (λ (z : EdgeClient). z.virtual_ip) same,
            ap (λ (z : EdgeClient). is_nil z.parsed_virtual_ip) same ∙ is_nil-nonempty ip parsed,
          )
    ]

consented :
    (env : EdgeEnv) (m : RegisterResponse) (e : EdgeClient) {t : EdgeClient}
    → (if not m.is_register_ok then (err Error.nack_register, e) else take_address env m e)
      ≡ (ok tt, t)
    → (m.is_register_ok ≡ true) × (take_address env m e ≡ (ok tt, t))
consented env m e {t} run = elim (Bool-cases m.is_register_ok) [
  | inr refused ↦
      let no =
        ap (λ (b : Bool). if not b then (err Error.nack_register, e) else take_address env m e)
          (sym refused)
        ∙ run in
      absurd (cc)
  | inl granted ↦ (
    granted,
    ap (λ (b : Bool). if not b then (err Error.nack_register, e) else take_address env m e)
          (sym granted)
        ∙ run,
  )
]

-- `InitialRegister` succeeds only on a response that grants the registration; the edge is then
-- registered, and has the address of the response, which parses.
pub initial_register_ok :
    (env : EdgeEnv) (reading : Reading) (e : EdgeClient) {t : EdgeClient}
    → initial_register env reading e ≡ (ok tt, t)
    → (packet : Text) × (addr : Addr) × (m : Message RegisterResponse) × (reading.packet
        ≡ some (packet, addr))
      × (message_from_packet type_register_response env.unmarshal_register_response packet addr
          ≡ ok m)
      × (m.msg.is_register_ok ≡ true)
      × (t.registered ≡ true)
      × (t.virtual_ip ≡ env.cidr_string m.msg.virtual_ip m.msg.masklen)
      × (is_nil t.parsed_virtual_ip ≡ false)
unfolding initial_register
initial_register_ok env reading e {t} run =
    let (u, sent, run1) = and_then-ok (request_register env e) _ run in
    let a = state_of (request_register env e) in
    let (answer, got, run2) = and_then-ok (read_answer a reading, a) _ run1 in
    let (m, read, run3) =
      and_then-ok
        (
          message_from_packet type_register_response env.unmarshal_register_response answer.0
              answer.1,
          a,
        )
        _ run2 in
    let (granted, taken) = consented env m.msg a run3 in
    let (registered, cidr, parsed) = addressed env m.msg a taken in
    (answer.0, answer.1, m, read_answer_ok a reading got, read, granted, registered, cidr, parsed)
