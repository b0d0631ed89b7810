-- ===== src/Protocol/Message.antt =====
-- The messages of pkg/protocol/message.go and the dispatch of pkg/protocol/handler.go.
use n2n_go.Base.{ℕ, ◌≡◌, refl, ap, not, Option, none, some, [], arith, nat_beq, if◌then◌else◌}
use n2n_go.Base.Exec.{ok, or_fail, Result, Exec, err, ◌>>=◌}
use n2n_go.Base.Keys.{Text, text_eq, nat_eq}
use n2n_go.Base.Maps.{get, Map}
use n2n_go.Errors.{Error}
use n2n_go.Net.{Addr}
use n2n_go.Protocol.Datagram.{unpack, pack}
use n2n_go.Protocol.Datagram.RoundTrip.{unpack-pack, IsHeader}
use n2n_go.Protocol.Header.{
  ProtoVHeader, has_src_mac_addr, has_dst_mac_addr, get_dst_mac_addr, get_src_mac_addr,
}
use n2n_go.Protocol.Mac.{is_nil, mac_string}
use n2n_go.Protocol.Spec.{type_data}

pub record RawMessage : Type 0 where
  pub header : ProtoVHeader
  pub payload : Text
  pub from_addr : Addr
  pub raw_packet : Text

-- `NewRawMessage`
unfoldable pub new_raw_message : Text → Addr → Result Error RawMessage
new_raw_message packet addr = do
  unpacked ← unpack packet
  ok (record { header = unpacked.0; payload = unpacked.1; from_addr = addr; raw_packet = packet })

-- `RawMessage.DestMACAddr` and `EdgeMACAddr`
unfoldable pub dest_mac_addr : RawMessage → Text
dest_mac_addr r = if has_dst_mac_addr r.header then mac_string (get_dst_mac_addr r.header) else []

unfoldable pub edge_mac_addr : RawMessage → Text
edge_mac_addr r = if has_src_mac_addr r.header then mac_string (get_src_mac_addr r.header) else []

abbrev pub community_hash : RawMessage → ℕ
community_hash r = r.header.community_id

pub record DataMessage : Type 0 where
  pub raw_msg : RawMessage
  pub edge_mac_addr : Text
  pub community_hash : ℕ
  pub dest_mac_addr : Text

-- `RawMessage.ToDataMessage`; the printed form of a nil address is empty.
unfoldable pub to_data_message : RawMessage → Result Error DataMessage
to_data_message r =
    if not (nat_beq r.header.packet_type type_data)
    then err Error.not_data_packet
    else ok (record {
      raw_msg = r;
      edge_mac_addr = mac_string (get_src_mac_addr r.header);
      community_hash = r.header.community_id;
      dest_mac_addr =
          let destmac = get_dst_mac_addr r.header in
          if not (is_nil destmac) then mac_string destmac else [];
    })

-- `Message[T]`
pub record Message (T : Type 0) : Type 0 where
  pub raw : RawMessage
  pub msg : T

-- `ToMessage[T]`, for the packet type of `T` and its decoder, which is protobuf's.
unfoldable pub to_message :
    {T : Type 0} → ℕ → (Text → Option T) → RawMessage → Result Error (Message T)
to_message packet_type unmarshal r =
    if not (nat_beq r.header.packet_type packet_type)
    then err Error.wrong_packet_type
    else do v ← or_fail Error.decode_failed (unmarshal r.payload); ok (record { raw = r; msg = v })

-- `MessageFromPacket[T]`
unfoldable pub message_from_packet :
    {T : Type 0} → ℕ → (Text → Option T) → Text → Addr → Result Error (Message T)
message_from_packet packet_type unmarshal packet addr = do
  raw ← new_raw_message packet addr
  to_message packet_type unmarshal raw

-- `MessageHandlerMap.Handle`, for handlers that change a state.
unfoldable pub handle :
    {S : Type 0}
    → Map ℕ (RawMessage → Exec S Error (Unit {0}))
    → RawMessage
    → Exec S Error (Unit {0})
handle handlers r s = elim (get r.header.packet_type handlers) [
  | none ↦ (err Error.no_handler, s)
  | some fn ↦ fn r s
]

-- The handler that the table has for the packet's type is called.
pub handle_found :
    {S : Type 0} (handlers : Map ℕ (RawMessage → Exec S Error (Unit {0}))) (r : RawMessage) (s : S)
    {fn : RawMessage → Exec S Error (Unit {0})}
    → get r.header.packet_type handlers ≡ some fn
    → handle handlers r s ≡ fn r s
unfolding handle
handle_found {S} handlers r s found =
    ap
      (λ (o : Option (RawMessage → Exec S Error (Unit {0}))). elim o [
        | none ↦ (err Error.no_handler, s)
        | some fn ↦ fn r s
      ])
      found

module _ {T : Type 0} (packet_type : ℕ) (unmarshal : Text → Option T) where
  -- A packet of the type expected, packed from a header whose fields fit and from an encoding that
  -- the decoder reads as a value, comes out as that value, behind that header and with the address
  -- it came from.
  pub message_from_packet-pack :
      (h : ProtoVHeader) (v : T) (encoded : Text) (addr : Addr)
      → IsHeader h
      → h.packet_type ≡ packet_type
      → unmarshal encoded ≡ some v
      → (m : Message T) × (message_from_packet packet_type unmarshal (pack h encoded) addr ≡ ok m)
        × (m.msg ≡ v)
        × (m.raw.header ≡ h)
        × (m.raw.from_addr ≡ addr)
  unfolding message_from_packet new_raw_message to_message
  message_from_packet-pack h v encoded addr fits typed decodes = (
    record {
      raw = record { header = h; payload = encoded; from_addr = addr; raw_packet = pack h encoded };
      msg = v;
    },
    ground (arith, unpack-pack h encoded fits),
    refl,
    refl,
    refl,
  )
