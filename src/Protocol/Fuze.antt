-- ===== src/Protocol/Fuze.antt =====
-- pkg/protocol/vfuze.go: the seven-byte header of the data fast path.
use n2n_go.Base.{
  ℕ, ◌≡◌, subst, not, ◌∷◌, ◌++◌, arith, ltb, nat_beq, if◌then◌else◌, length, take, drop,
  length-append, take-append, take_all, drop-append,
}
use n2n_go.Base.Bytes.{byte_at}
use n2n_go.Base.Exec.{err, Result, ok}
use n2n_go.Base.Keys.{Text}
use n2n_go.Errors.{Error}
use n2n_go.Protocol.Datagram.{unpack}
use n2n_go.Protocol.Header.{ProtoVHeader}
use n2n_go.Protocol.Mac.{HardwareAddr}

abbrev pub proto_v_fuze_size : ℕ
proto_v_fuze_size = 7

abbrev pub version_v_fuze : ℕ
version_v_fuze = 0x51

-- `VFuzeHeaderBytes`: a destination of fewer than six bytes panics.
unfoldable pub v_fuze_header_bytes : HardwareAddr → Result Error Text
v_fuze_header_bytes dst =
    if ltb (length dst) 6 then err Error.panic else ok (version_v_fuze ∷ take 6 dst)

-- `VFuzePacketDestMACAddr`
unfoldable pub v_fuze_packet_dest_mac_addr : Text → Result Error HardwareAddr
v_fuze_packet_dest_mac_addr packet =
    if ltb (length packet) proto_v_fuze_size
    then err Error.not_vfuze_short
    else if not (nat_beq (byte_at 0 packet) version_v_fuze)
    then err Error.not_vfuze_version
    else ok (take 6 (drop 1 packet))

abbrev pub fuze_header : HardwareAddr → Text
fuze_header dst = version_v_fuze ∷ dst

pub fuze_header_bytes :
    (dst : Text) → length dst ≡ 6 → v_fuze_header_bytes dst ≡ ok (fuze_header dst)
unfolding v_fuze_header_bytes
fuze_header_bytes dst six =
    let whole : take 6 dst ≡ dst = subst (λ n. take n dst ≡ dst) six (take_all dst) in
    ground (arith, whole)

pub fuze_dest :
    (dst payload : Text)
    → length dst ≡ 6
    → v_fuze_packet_dest_mac_addr (fuze_header dst ++ payload) ≡ ok dst
unfolding v_fuze_packet_dest_mac_addr
fuze_dest dst payload six =
    let front : take 6 (dst ++ payload) ≡ dst =
      subst (λ n. take n (dst ++ payload) ≡ dst) six (take-append dst payload) in
    ground (arith, front, length-append dst payload)

-- The destination that was written in front of a payload is read back, for an address of six
-- bytes, and the payload stands behind it.
pub v_fuze_round_trip :
    (dst payload : Text)
    → length dst ≡ 6
    → (header : Text) × (v_fuze_header_bytes dst ≡ ok header)
      × (v_fuze_packet_dest_mac_addr (header ++ payload) ≡ ok dst)
      × (drop proto_v_fuze_size (header ++ payload) ≡ payload)
v_fuze_round_trip dst payload six = (
  fuze_header dst,
  fuze_header_bytes dst six,
  fuze_dest dst payload six,
  subst (λ n. drop n (dst ++ payload) ≡ payload) six (drop-append dst payload),
)

-- No packet is both a VFuze packet and a datagram with the 30-byte header.
pub v_fuze_or_datagram :
    (packet : Text) {dst : HardwareAddr} {u : ProtoVHeader × Text}
    → v_fuze_packet_dest_mac_addr packet ≡ ok dst
    → ¬ (unpack packet ≡ ok u)
unfolding v_fuze_packet_dest_mac_addr unpack
v_fuze_or_datagram packet e f = ground arith
