-- ===== src/Protocol/Datagram.antt =====
-- The datagrams of pkg/protocol/message.go: a header in big-endian order, then the payload.
pub mod Flagging
pub mod RoundTrip
use n2n_go.Base.{ℕ, suc, true, not, [], ◌∷◌, ◌++◌, ltb, nat_beq, if◌then◌else◌, length, drop}
use n2n_go.Base.Bytes.{be16, byte_at, be32, u32, u16}
use n2n_go.Base.Exec.{Result, err, ok, ◌>>=◌}
use n2n_go.Base.Keys.{Text}
use n2n_go.Errors.{Error}
use n2n_go.Protocol.Header.{
  set_from_supernode, id_bytes, ProtoVHeader, proto_v_header_size, version_v, Id6,
}

-- `binary.Write` of the header.
unfoldable pub header_bytes : ProtoVHeader → Text
header_bytes h =
    h.version ∷ h.ttl ∷ h.packet_type ∷ h.flags ∷ []
    ++ (be16 h.sequence
        ++ (be32 h.community_id
            ++ (id_bytes h.source_id
                ++ (id_bytes h.dest_id ++ (be32 h.timestamp ++ be32 h.checksum)))))

-- `PackProtoVDatagram`
unfoldable pub pack : ProtoVHeader → Text → Text
unfolding header_bytes
pack h payload = header_bytes h ++ payload

unfoldable pub id_at : ℕ → Text → Id6
id_at i p = record {
  b0 = byte_at i p;
  b1 = byte_at (suc i) p;
  b2 = byte_at (suc (suc i)) p;
  b3 = byte_at (suc (suc (suc i))) p;
  b4 = byte_at (suc (suc (suc (suc i)))) p;
  b5 = byte_at (suc (suc (suc (suc (suc i))))) p;
}

-- `binary.Read` of the header from the first 30 bytes.
unfoldable pub read_header : Text → ProtoVHeader
unfolding id_at
read_header p = record {
  version = byte_at 0 p;
  ttl = byte_at 1 p;
  packet_type = byte_at 2 p;
  flags = byte_at 3 p;
  sequence = u16 (byte_at 4 p) (byte_at 5 p);
  community_id = u32 (byte_at 6 p) (byte_at 7 p) (byte_at 8 p) (byte_at 9 p);
  source_id = id_at 10 p;
  dest_id = id_at 16 p;
  timestamp = u32 (byte_at 22 p) (byte_at 23 p) (byte_at 24 p) (byte_at 25 p);
  checksum = u32 (byte_at 26 p) (byte_at 27 p) (byte_at 28 p) (byte_at 29 p);
}

-- `UnpackProtoVDatagram`
unfoldable pub unpack : Text → Result Error (ProtoVHeader × Text)
unpack packet =
    if ltb (length packet) proto_v_header_size
    then err Error.packet_too_short
    else if not (nat_beq (byte_at 0 packet) version_v)
    then err Error.not_version_v
    else ok (read_header packet, drop proto_v_header_size packet)

-- `FlagPacketFromSupernode`
unfoldable pub flag_packet_from_supernode : Text → Result Error Text
flag_packet_from_supernode packet = do
  unpacked ← unpack packet
  ok (pack (set_from_supernode true unpacked.0) unpacked.1)
