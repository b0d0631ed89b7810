-- ===== src/Tuntap/Frame.antt =====
-- pkg/tuntap/frame.go and the `Ethertype` of ethertype.go.
pub mod Parse
pub mod Build
use n2n_go.Base.{
  ℕ, suc, ◌+◌, ◌*◌, ◌%◌, Bool, false, ◌&&◌, [], ◌∷◌, ◌++◌, ltb, leb, nat_beq, if◌then◌else◌, length,
  take, drop, replicate,
}
use n2n_go.Base.Bytes.{u16, byte_at}
use n2n_go.Base.Exec.{Result, err, ok}
use n2n_go.Base.Keys.{Text}
use n2n_go.Errors.{Error}
use n2n_go.Protocol.Mac.{HardwareAddr}

abbrev pub min_frame_size : ℕ
min_frame_size = 14

abbrev pub min_tagged_frame_size : ℕ
min_tagged_frame_size = 18

abbrev pub min_double_tagged_size : ℕ
min_double_tagged_size = 22

abbrev pub dot1q_tag_type : ℕ
dot1q_tag_type = 0x8100

abbrev pub dot1ad_tag_type : ℕ
dot1ad_tag_type = 0x88a8

pub data Tagging : Type 0 where
  untagged tagged double_tagged : Tagging

-- The bytes that the tags take: the value of the Go constant.
abbrev pub tag_size : Tagging → ℕ
tag_size untagged = 0
tag_size tagged = 4
tag_size double_tagged = 8

pub record Ethertype : Type 0 where
  pub hi : ℕ
  pub lo : ℕ

-- `Ethertype.Value`
abbrev pub ethertype_value : Ethertype → ℕ
ethertype_value e = u16 e.hi e.lo

unfoldable pub fast_destination : Text → HardwareAddr
fast_destination frame = take 6 frame

unfoldable pub fast_source : Text → HardwareAddr
fast_source frame = take 6 (drop 6 frame)

-- `FastTaggingType`, of a frame of at least 14 bytes.
unfoldable pub fast_tagging_type : Text → Tagging
fast_tagging_type frame =
    let type_field = u16 (byte_at 12 frame) (byte_at 13 frame) in
    if nat_beq type_field dot1q_tag_type
    then if leb 18 (length frame)
        && nat_beq (u16 (byte_at 16 frame) (byte_at 17 frame)) dot1q_tag_type
      then double_tagged
      else tagged
    else if nat_beq type_field dot1ad_tag_type
    then double_tagged
    else untagged

unfoldable pub fast_ethertype : Text → Tagging → Ethertype
fast_ethertype frame t =
    let pos = 12 + tag_size t in record { hi = byte_at pos frame; lo = byte_at (suc pos) frame }

unfoldable pub fast_payload : Text → Tagging → Text
fast_payload frame t = drop (14 + tag_size t) frame

unfoldable pub fast_vlan_id : Text → ℕ
fast_vlan_id frame = (byte_at 14 frame % 16) * 256 + byte_at 15 frame

unfoldable pub destination : Text → Result Error HardwareAddr
destination frame =
    if ltb (length frame) 6 then err Error.frame_too_short else ok (fast_destination frame)

unfoldable pub source : Text → Result Error HardwareAddr
source frame = if ltb (length frame) 12 then err Error.frame_too_short else ok (fast_source frame)

unfoldable pub detect_tagging : Text → Result Error Tagging
detect_tagging frame =
    if ltb (length frame) min_frame_size
    then err Error.frame_too_short
    else ok (fast_tagging_type frame)

-- The least size of a frame of each tagging; `base` is that of an untagged one.
abbrev min_size : ℕ → Tagging → ℕ
min_size base untagged = base
min_size base tagged = min_tagged_frame_size
min_size base double_tagged = min_double_tagged_size

unfoldable pub get_ethertype : Text → Result Error Ethertype
get_ethertype frame =
    if ltb (length frame) min_frame_size
    then err Error.frame_too_short
    else let t = fast_tagging_type frame in
      if ltb (length frame) (min_size min_frame_size t)
      then err Error.frame_too_short
      else ok (fast_ethertype frame t)

-- `Payload` asks two more bytes of an untagged frame.
unfoldable pub get_payload : Text → Result Error Text
get_payload frame =
    if ltb (length frame) min_frame_size
    then err Error.frame_too_short
    else let t = fast_tagging_type frame in
      if ltb (length frame) (min_size (min_frame_size + 2) t)
      then err Error.frame_too_short
      else ok (fast_payload frame t)

vlan_id_of : Text → Tagging → Result Error ℕ
vlan_id_of frame untagged = err Error.not_tagged
vlan_id_of frame t =
    if ltb (length frame) min_tagged_frame_size
    then err Error.frame_too_short
    else ok (fast_vlan_id frame)

unfoldable pub get_vlan_id : Text → Result Error ℕ
unfolding vlan_id_of
get_vlan_id frame =
    if ltb (length frame) min_frame_size
    then err Error.frame_too_short
    else vlan_id_of frame (fast_tagging_type frame)

unfoldable pub is_broadcast : HardwareAddr → Bool
is_broadcast addr =
    if ltb (length addr) 6
    then false
    else nat_beq (byte_at 0 addr) 0xff
      && nat_beq (byte_at 1 addr) 0xff
      && nat_beq (byte_at 2 addr) 0xff
      && nat_beq (byte_at 3 addr) 0xff
      && nat_beq (byte_at 4 addr) 0xff
      && nat_beq (byte_at 5 addr) 0xff

unfoldable pub is_multicast : HardwareAddr → Bool
is_multicast addr = ltb 0 (length addr) && nat_beq (byte_at 0 addr % 2) 1

unfoldable pub is_ipv4_multicast : HardwareAddr → Bool
is_ipv4_multicast addr =
    if ltb (length addr) 3
    then false
    else nat_beq (byte_at 0 addr) 0x01
      && nat_beq (byte_at 1 addr) 0x00
      && nat_beq (byte_at 2 addr) 0x5e

unfoldable pub is_ipv6_multicast : HardwareAddr → Bool
is_ipv6_multicast addr =
    if ltb (length addr) 2
    then false
    else nat_beq (byte_at 0 addr) 0x33 && nat_beq (byte_at 1 addr) 0x33

-- `copy(dst, src)`: what is left of a longer destination stays.
abbrev pub overwrite : Text → Text → Text
overwrite [] src = []
overwrite (d ∷ ds) [] = d ∷ ds
overwrite (d ∷ ds) (s ∷ ss) = s ∷ overwrite ds ss

-- The writes of both constructors, over what the frame held.
unfoldable pub fill_frame : Text → HardwareAddr → HardwareAddr → Ethertype → Text → Text
fill_frame frame dst src e payload =
    overwrite (take 6 frame) dst
    ++ (overwrite (take 6 (drop 6 frame)) src ++ (e.hi ∷ e.lo ∷ overwrite (drop 14 frame) payload))

unfoldable pub new_frame : HardwareAddr → HardwareAddr → Ethertype → Text → Text
unfolding fill_frame
new_frame dst src e payload = fill_frame (replicate (14 + length payload) 0) dst src e payload

-- `NewFrameInto` returns the size and leaves the frame in the buffer.
unfoldable pub new_frame_into :
    Text → HardwareAddr → HardwareAddr → Ethertype → Text → Result Error (ℕ × Text)
unfolding fill_frame
new_frame_into buffer dst src e payload =
    if ltb (length buffer) (14 + length payload)
    then err Error.buffer_too_small
    else ok (14 + length payload, fill_frame buffer dst src e payload)

-- What `ParseFrame` returns: the addresses and the tagging also where the tags are cut off.
pub record Parsed : Type 0 where
  pub dst : HardwareAddr
  pub src : HardwareAddr
  pub tagging : Tagging
  pub rest : Result Error (Ethertype × Text)

unfoldable pub parse_frame : Text → Result Error Parsed
parse_frame frame =
    if ltb (length frame) min_frame_size
    then err Error.frame_too_short
    else let t = fast_tagging_type frame in
      ok (record {
        dst = fast_destination frame;
        src = fast_source frame;
        tagging = t;
        rest =
            if ltb (length frame) (min_size min_frame_size t)
            then err Error.frame_too_short
            else ok (fast_ethertype frame t, fast_payload frame t);
      })
