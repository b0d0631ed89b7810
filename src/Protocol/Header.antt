-- ===== src/Protocol/Header.antt =====
-- pkg/protocol/protoV.go: the 30-byte header, its addresses and its flags.
pub mod Flags
use n2n_go.Base.{
  ℕ, ◌-◌, ◌*◌, ◌%◌, ◌^◌, bit_and, bit_or, Bool, true, not, ◌&&◌, [], ◌∷◌, ltb, leb, nat_beq,
  if◌then◌else◌, length,
}
use n2n_go.Base.Bytes.{byte_at}
use n2n_go.Base.Exec.{err, Result, ok, ◌>>=◌}
use n2n_go.Base.Keys.{Text}
use n2n_go.Errors.{Error}
use n2n_go.Protocol.Hash.{hash_community}
use n2n_go.Protocol.Mac.{is_nil, HardwareAddr}
use n2n_go.Tuntap.Frame.{source}

abbrev pub proto_v_header_size : ℕ
proto_v_header_size = 30

abbrev pub version_v : ℕ
version_v = 5

abbrev pub flag_extended_addressing : ℕ
flag_extended_addressing = 0x01

abbrev pub flag_from_super_node : ℕ
flag_from_super_node = 0x02

-- `[6]byte`
pub record Id6 : Type 0 where
  pub b0 : ℕ
  pub b1 : ℕ
  pub b2 : ℕ
  pub b3 : ℕ
  pub b4 : ℕ
  pub b5 : ℕ

abbrev pub zero_id : Id6
zero_id = record { b0 = 0; b1 = 0; b2 = 0; b3 = 0; b4 = 0; b5 = 0 }

abbrev pub id_bytes : Id6 → Text
id_bytes a = a.b0 ∷ a.b1 ∷ a.b2 ∷ a.b3 ∷ a.b4 ∷ a.b5 ∷ []

pub record ProtoVHeader : Type 0 where
  pub version : ℕ
  pub ttl : ℕ
  pub packet_type : ℕ
  pub flags : ℕ
  pub sequence : ℕ
  pub community_id : ℕ
  pub source_id : Id6
  pub dest_id : Id6
  pub timestamp : ℕ
  pub checksum : ℕ

all_zero : Text → Bool
all_zero [] = true
all_zero (b ∷ bs) = nat_beq b 0 && all_zero bs

-- `bytesToMAC`: an all-zero identifier is no address.
unfoldable pub bytes_to_mac : Id6 → HardwareAddr
unfolding all_zero
bytes_to_mac a = if all_zero (id_bytes a) then [] else id_bytes a

unfoldable pub get_src_mac_addr : ProtoVHeader → HardwareAddr
get_src_mac_addr h = bytes_to_mac h.source_id

unfoldable pub get_dst_mac_addr : ProtoVHeader → HardwareAddr
get_dst_mac_addr h = bytes_to_mac h.dest_id

unfoldable pub has_src_mac_addr : ProtoVHeader → Bool
has_src_mac_addr h = not (is_nil (get_src_mac_addr h))

unfoldable pub has_dst_mac_addr : ProtoVHeader → Bool
has_dst_mac_addr h = not (is_nil (get_dst_mac_addr h))

-- `copy(id[:], mac[:6])`: a shorter address panics.
unfoldable pub copy_id : HardwareAddr → Result Error Id6
copy_id mac =
    if ltb (length mac) 6
    then err Error.panic
    else ok (record {
      b0 = byte_at 0 mac;
      b1 = byte_at 1 mac;
      b2 = byte_at 2 mac;
      b3 = byte_at 3 mac;
      b4 = byte_at 4 mac;
      b5 = byte_at 5 mac;
    })

unfoldable pub copy_dest : HardwareAddr → Result Error Id6
copy_dest dst = if is_nil dst then ok zero_id else copy_id dst

-- `NewProtoVHeader`; `now` is the Unix time in seconds.
unfoldable pub new_proto_v_header :
    ℕ → ℕ → ℕ → ℕ → Text → HardwareAddr → HardwareAddr → Result Error ProtoVHeader
unfolding copy_dest
new_proto_v_header now ttl p_type seq community src dst =
    if is_nil src then err Error.nil_source_mac else do
      source ← copy_id src
      dest ← copy_dest dst
      ok (record {
        version = version_v;
        ttl = ttl;
        packet_type = p_type;
        flags = 0;
        sequence = seq;
        community_id = hash_community community;
        source_id = source;
        dest_id = dest;
        timestamp = now % 2 ^ 32;
        checksum = 0;
      })

abbrev second : ℕ
second = 10 ^ 9

-- `VerifyTimestamp`, in nanoseconds, for a reference time since 1970 and a drift that is not
-- negative. `Sub` saturates at the ends of int64, and negating its least value leaves it negative.
pub verify_timestamp : ProtoVHeader → ℕ → ℕ → Bool
verify_timestamp h ref drift =
    let ts = h.timestamp * second in
    if leb ref ts
    then leb (ts - ref) drift
    else if leb (2 ^ 63) (ref - ts)
    then true
    else leb (ref - ts) drift

-- `SetFlag`, on bytes: `^flag` is `255 - flag`.
unfoldable pub set_flag : ℕ → Bool → ProtoVHeader → ProtoVHeader
set_flag flag value h = record h {
  flags = if value then bit_or h.flags flag else bit_and h.flags (255 - flag);
}

unfoldable pub has_flag : ℕ → ProtoVHeader → Bool
has_flag flag h = not (nat_beq (bit_and h.flags flag) 0)

unfoldable pub set_from_supernode : Bool → ProtoVHeader → ProtoVHeader
unfolding set_flag
set_from_supernode value h = set_flag flag_from_super_node value h

unfoldable pub is_from_supernode : ProtoVHeader → Bool
unfolding has_flag
is_from_supernode h = has_flag flag_from_super_node h
