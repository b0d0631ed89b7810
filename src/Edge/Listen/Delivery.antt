-- ===== src/Edge/Listen/Delivery.antt =====
-- What the loops of pkg/edge/routines.go do with payloads that other edges sent.
-- A packet that fits is in front of what the buffer held.
use n2n_go.Base.{
  ℕ, zero, suc, ◌≤◌, ◌≡◌, refl, ap, ◌∙◌, true, false, some, [], ◌∷◌, ◌++◌, arith, ltb, length, take,
  drop, take-append,
}
use n2n_go.Base.Bytes.{byte_at}
use n2n_go.Base.Exec.{ok, Result, err}
use n2n_go.Base.Keys.{Text, text_eq, nat_eq}
use n2n_go.Base.Maps.{get}
use n2n_go.Edge.Handlers.{EdgeHandler, handle_data_message}
use n2n_go.Edge.Listen.{receive_packet, addr_of, received_datagram}
use n2n_go.Edge.Peers.{edge_handlers}
use n2n_go.Edge.Receive.{handle_data_payload}
use n2n_go.Edge.Receive.Frames.{handle_v_fuze_packet_own, delivered}
use n2n_go.Edge.State.{UdpAddr, EdgeClient, EdgeEnv}
use n2n_go.Errors.{Error}
use n2n_go.Protocol.Datagram.{pack}
use n2n_go.Protocol.Datagram.RoundTrip.{unpack-pack, IsHeader, pack_long}
use n2n_go.Protocol.Fuze.{fuze_header}
use n2n_go.Protocol.Header.{version_v, ProtoVHeader, proto_v_header_size}
use n2n_go.Protocol.Message.{handle_found, new_raw_message, handle, RawMessage}
use n2n_go.Protocol.Spec.{type_data}
use n2n_go.Tuntap.Frame.{overwrite}

pub overwrite_fits :
    (buf packet : Text)
    → length packet ≤ length buf
    → overwrite buf packet ≡ packet ++ drop (length packet) buf
overwrite_fits [] [] fits = refl
overwrite_fits [] (p ∷ ps) fits = absurd (omega arith)
overwrite_fits (b ∷ bs) [] fits = refl
overwrite_fits (b ∷ bs) (p ∷ ps) fits =
    ap (λ (r : Text). p ∷ r) (overwrite_fits bs ps (omega arith))

pub take_fits : (n : ℕ) (packet : Text) → length packet ≤ n → take n packet ≡ packet
take_fits zero [] fits = refl
take_fits zero (p ∷ ps) fits = absurd (omega arith)
take_fits (suc n) [] fits = refl
take_fits (suc n) (p ∷ ps) fits = ap (λ (r : Text). p ∷ r) (take_fits n ps (omega arith))

module _ (env : EdgeEnv) (e : EdgeClient) (payload frame : Text) where
  abbrev pub raw_of : ProtoVHeader → UdpAddr → RawMessage
  raw_of h addr = record {
    header = h;
    payload = payload;
    from_addr = addr_of addr;
    raw_packet = pack h payload;
  }

  read_back :
      (h : ProtoVHeader) (addr : UdpAddr)
      → IsHeader h
      → new_raw_message (pack h payload) (addr_of addr) ≡ ok (raw_of h addr)
  unfolding new_raw_message
  read_back h addr fits = ground (arith, unpack-pack h payload fits)

  first_byte :
      (h : ProtoVHeader) (rest : Text) → IsHeader h → byte_at 0 (pack h payload ++ rest) ≡ version_v
  unfolding pack
  first_byte h rest fits = fits.version

  -- A datagram goes to the handler of its type.
  pub receive_handled :
      (h : ProtoVHeader) (addr : UdpAddr) (rest : Text)
      → IsHeader h
      → receive_packet env (pack h payload ++ rest) (length (pack h payload)) addr e
        ≡ handle (edge_handlers env) (raw_of h addr) e
  unfolding receive_packet received_datagram
  receive_handled h addr rest fits =
      let first : byte_at 0 (pack h payload ++ rest) ≡ version_v = first_byte h rest fits in
      let long : ltb (length (pack h payload)) proto_v_header_size ≡ false =
        ground (arith, pack_long h payload) in
      rw (first, long, take-append (pack h payload) rest)
        (ap
          (λ (o : Result Error RawMessage). elim o [
            | err x ↦ (ok tt, e)
            | ok r ↦ handle (edge_handlers env) r e
          ])
          (read_back h addr fits))

  -- For a type that the table has.
  pub receive_typed :
      (h : ProtoVHeader) (addr : UdpAddr) (rest : Text) {handler : EdgeHandler}
      → IsHeader h
      → get h.packet_type (edge_handlers env) ≡ some handler
      → receive_packet env (pack h payload ++ rest) (length (pack h payload)) addr e
        ≡ handler (raw_of h addr) e
  receive_typed h addr rest fits found =
      receive_handled h addr rest fits ∙ handle_found (edge_handlers env) (raw_of h addr) e found

  -- A datagram with such a payload.
  pub receive_data :
      (h : ProtoVHeader) (addr : UdpAddr) (rest : Text)
      → IsHeader h
      → h.packet_type ≡ type_data
      → handle_data_payload env payload e ≡ (ok tt, delivered frame e)
      → receive_packet env (pack h payload ++ rest) (length (pack h payload)) addr e
        ≡ (ok tt, delivered frame e)
  unfolding edge_handlers get handle_data_message
  receive_data h addr rest fits typed puts =
      receive_typed h addr rest fits (ap (λ (k : ℕ). get k (edge_handlers env)) typed) ∙ puts

  -- A packet of the fast path for this edge.
  pub receive_fuze :
      (addr : UdpAddr) (rest : Text)
      → length e.mac_addr ≡ 6
      → e.enable_v_fuze ≡ true
      → handle_data_payload env payload e ≡ (ok tt, delivered frame e)
      → receive_packet env
          ((fuze_header e.mac_addr ++ payload) ++ rest)
          (length (fuze_header e.mac_addr ++ payload))
          addr
          e
        ≡ (ok tt, delivered frame e)
  unfolding receive_packet
  receive_fuze addr rest six on puts =
      handle_v_fuze_packet_own env e payload frame rest six addr on ∙ puts
