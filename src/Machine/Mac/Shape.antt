-- ===== src/Machine/Mac/Shape.antt =====
-- What every generated address looks like, and that both sides generate the same one.
use n2n_go.Base.{
  ℕ, zero, suc, ◌/◌, ◌%◌, ◌<◌, bit_and, bit_or, ◌≡◌, refl, Bool, true, false, ◌&&◌, some, [], ◌∷◌,
  arith, ltb, nat_beq, length, take, length-take,
}
use n2n_go.Base.Bytes.{byte_at, IsBytes, take-IsBytes}
use n2n_go.Base.Exec.{ok}
use n2n_go.Base.Keys.{Text}
use n2n_go.Base.Tables.{every_below_sound, every_below}
use n2n_go.Machine.Mac.{
  not_sip_hash24, ext_generate_mac, generate_mac, ext_generate_mac_with, hash_key, net_generate_mac,
  le_bytes, mark, mac_data,
}
use n2n_go.Protocol.Mac.{HardwareAddr}
use n2n_go.Tuntap.Frame.{is_multicast, is_broadcast}

abbrev marked : ℕ → ℕ
marked b = bit_and (bit_or b 0x02) 0xfe

abbrev mark_fine : ℕ → Bool
mark_fine b = nat_beq (marked b % 4) 2 && ltb (marked b) 256

mark_table : every_below 256 mark_fine ≡ true
unfolding every_below
mark_table = refl

mark_facts : (b : ℕ) → b < 256 → (marked b % 4 ≡ 2) × (marked b < 256)
mark_facts b h = ground (arith, every_below_sound 256 mark_fine b mark_table h)

length-le_bytes : (n x : ℕ) → length (le_bytes n x) ≡ n
unfolding le_bytes
length-le_bytes zero x = refl
length-le_bytes (suc n) x = omega (arith, length-le_bytes n (x / 256))

le_bytes-IsBytes : (n x : ℕ) → IsBytes (le_bytes n x)
unfolding le_bytes
le_bytes-IsBytes zero x = tt
le_bytes-IsBytes (suc n) x = (omega arith, le_bytes-IsBytes n (x / 256))

-- Six bytes, of which the first has the bit of a locally administered address and lacks that of a
-- multicast address.
pub record IsLocalUnicast (mac : HardwareAddr) : Type 0 where
  pub six : length mac ≡ 6
  pub bytes : IsBytes mac
  pub bits : byte_at 0 mac % 4 ≡ 2

mark-IsLocalUnicast :
    (mac : HardwareAddr) → length mac ≡ 6 → IsBytes mac → IsLocalUnicast (mark mac)
unfolding mark
mark-IsLocalUnicast [] six bytes = absurd (omega arith)
mark-IsLocalUnicast (b ∷ bs) six bytes =
    let (bits, small) = mark_facts b bytes.0 in
    record { six = six; bytes = (small, bytes.1); bits = bits }

generated-IsLocalUnicast :
    (id name key : Text) (idx : ℕ) → IsLocalUnicast (ext_generate_mac_with id name key idx)
unfolding ext_generate_mac_with
generated-IsLocalUnicast id name key idx =
    let word = not_sip_hash24 (mac_data id name idx) key in
    mark-IsLocalUnicast (take 6 (le_bytes 8 word))
      (length-take 6 (le_bytes 8 word) (omega (arith, length-le_bytes 8 word)))
      (take-IsBytes 6 (le_bytes 8 word) (le_bytes-IsBytes 8 word))

-- The supernode computes an address for every community name and machine id; it is a local unicast
-- address, and the one that an edge computes from the same two.
pub ext_generate_mac_lem :
    (community_name machine_id : Text)
    → (mac : HardwareAddr) × (ext_generate_mac community_name machine_id ≡ ok mac)
      × (generate_mac (some machine_id) community_name ≡ ok mac)
      × IsLocalUnicast mac
unfolding ext_generate_mac generate_mac net_generate_mac ext_generate_mac_with mac_data
ext_generate_mac_lem community_name machine_id =
    (_, refl, refl, generated-IsLocalUnicast machine_id community_name hash_key 12345)

-- A frame to a generated address is never taken for a broadcast or a multicast.
pub local_unicast_no_group :
    (mac : HardwareAddr)
    → IsLocalUnicast mac
    → (is_broadcast mac ≡ false) × (is_multicast mac ≡ false)
unfolding is_broadcast is_multicast
local_unicast_no_group mac v = ground (arith, v.bits)
