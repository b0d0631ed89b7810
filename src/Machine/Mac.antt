-- ===== src/Machine/Mac.antt =====
-- pkg/machine/mac.go, on words of 64 bits.
pub mod Shape
pub mod Collision
use n2n_go.Base.{
  ℕ, zero, suc, ◌+◌, ◌-◌, ◌*◌, ◌/◌, ◌%◌, ◌^◌, bit_and, bit_or, bit_xor, Option, [], ◌∷◌, ◌++◌, ltb,
  if◌then◌else◌, take, drop,
}
use n2n_go.Base.Exec.{or_fail, ok, Result, ◌>>=◌}
use n2n_go.Base.Keys.{Text}
use n2n_go.Errors.{Error}
use n2n_go.Protocol.Mac.{HardwareAddr}

abbrev pub word : ℕ
word = 2 ^ 64

abbrev add64 : ℕ → ℕ → ℕ
add64 a b = (a + b) % word

-- `(v << k) | (v >> (64 - k))`
abbrev rot : ℕ → ℕ → ℕ
rot k v = bit_or (v * 2 ^ k % word) (v / 2 ^ (64 - k))

pub record Lanes : Type 0 where
  pub v0 : ℕ
  pub v1 : ℕ
  pub v2 : ℕ
  pub v3 : ℕ

-- The round that the loop and the end of `notSipHash24` share.
sip_round : Lanes → Lanes
sip_round v =
    let a0 = add64 v.v0 v.v1 in
    let a2 = add64 v.v2 v.v3 in
    let a1 = rot 13 v.v1 in
    let a3 = rot 15 v.v3 in
    let b0 = bit_xor a0 a3 in
    let b2 = bit_xor a2 a1 in
    let b1 = add64 a1 b2 in
    let b3 = add64 a3 b0 in
    let c2 = rot 5 b2 in
    let c0 = rot 10 b0 in record { v0 = c0; v1 = b1; v2 = bit_xor c2 c0; v3 = bit_xor b3 b1 }

absorb : Lanes → Text → Lanes
absorb v [] = v
absorb v (k ∷ ks) = absorb (sip_round (record v { v3 = bit_xor v.v3 k })) ks

-- `binary.LittleEndian.Uint64` of a list of bytes.
le_word : Text → ℕ
le_word [] = 0
le_word (b ∷ bs) = b + 256 * le_word bs

-- `binary.LittleEndian.PutUint64`, for `n` bytes.
le_bytes : ℕ → ℕ → Text
le_bytes zero x = []
le_bytes (suc n) x = (x % 256) ∷ le_bytes n (x / 256)

initial : Text → Lanes
initial seed =
    let v0 = le_word (take 8 seed) in
    let v1 = le_word (take 8 (drop 8 seed)) in
    record {
      v0 = v0;
      v1 = v1;
      v2 = bit_xor v0 0x736f6d6570736575;
      v3 = bit_xor v1 0x646f72616e646f6d;
    }

squeeze : Lanes → ℕ
squeeze v = bit_xor (bit_xor (bit_xor v.v0 v.v1) v.v2) v.v3

-- `notSipHash24`
unfoldable pub not_sip_hash24 : Text → Text → ℕ
unfolding sip_round absorb le_word initial squeeze
not_sip_hash24 key seed = squeeze (sip_round (absorb (initial seed) key))

-- `HASH_KEY`
abbrev pub hash_key : Text
hash_key =
    0xd3 ∷ 0x1e ∷ 0x48 ∷ 0xfa ∷ 0x90 ∷ 0xfe ∷ 0x4b ∷ 0x4c ∷ 0x9d ∷ 0xaf ∷ 0xd5 ∷ 0xd7 ∷ 0xa1 ∷ 0xb1
    ∷ 0x2e ∷ 0x8a ∷ []

-- `markRandomMAC`, and then the multicast bit cleared.
mark : HardwareAddr → HardwareAddr
mark [] = []
mark (b ∷ bs) = bit_and (bit_or b 0x02) 0xfe ∷ bs

mac_data : Text → Text → ℕ → Text
mac_data machine_id name idx =
    if ltb 0 idx then machine_id ++ (name ++ le_bytes 8 idx) else machine_id ++ name

-- `extGenerateMac`
unfoldable pub ext_generate_mac_with : Text → Text → Text → ℕ → HardwareAddr
unfolding le_bytes mark mac_data
ext_generate_mac_with machine_id id_string key idx =
    mark (take 6 (le_bytes 8 (not_sip_hash24 (mac_data machine_id id_string idx) key)))

-- `ExtGenerateMac`, as the supernode computes it; it has no error.
unfoldable pub ext_generate_mac : Text → Text → Result Error HardwareAddr
unfolding ext_generate_mac_with
ext_generate_mac community_name machine_id =
    ok (ext_generate_mac_with machine_id community_name hash_key 12345)

-- `netGenerateMac`, from the machine id that the system gave, if it gave one.
unfoldable pub net_generate_mac : Option Text → Text → Text → ℕ → Result Error HardwareAddr
unfolding le_bytes mark
net_generate_mac machine_id id_string key idx = do
  id ← or_fail Error.no_machine_id machine_id
  let bytes = if ltb 0 idx then id ++ (id_string ++ le_bytes 8 idx) else id ++ id_string in
      ok (mark (take 6 (le_bytes 8 (not_sip_hash24 bytes key))))

-- `GenerateMac`, as the edge computes it
unfoldable pub generate_mac : Option Text → Text → Result Error HardwareAddr
generate_mac machine_id community_name = net_generate_mac machine_id community_name hash_key 12345
