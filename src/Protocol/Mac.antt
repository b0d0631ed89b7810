-- ===== src/Protocol/Mac.antt =====
-- `net.HardwareAddr` and pkg/protocol/ident.go. A nil address is the empty sequence.
use mathlib.Core.Path.{ap₂}
use n2n_go.Base.{
  ℕ, ◌+◌, ◌/◌, ◌%◌, ◌<◌, ◌≡◌, refl, ◌↔◌, Bool, true, false, [], ◌∷◌, arith, ltb, if◌then◌else◌,
}
use n2n_go.Base.Bytes.{IsBytes}
use n2n_go.Base.Keys.{eq_refl, ◌==◌, Text, text_beq_iff, text_eq, nat_eq}

abbrev pub HardwareAddr : Type 0
HardwareAddr = Text

-- `mac != nil`, of the addresses that this program makes: nil or six bytes.
abbrev pub is_nil : HardwareAddr → Bool
is_nil [] = true
is_nil (b ∷ bs) = false

-- A digit of "0123456789abcdef".
abbrev hex_digit : ℕ → ℕ
hex_digit d = if ltb d 10 then 48 + d else 87 + d

-- The bytes after the first, each behind a colon.
unfoldable pub tail_string : HardwareAddr → Text
tail_string [] = []
tail_string (b ∷ bs) = 58 ∷ hex_digit (b / 16) ∷ hex_digit (b % 16) ∷ tail_string bs

-- `HardwareAddr.String`
unfoldable pub mac_string : HardwareAddr → Text
unfolding tail_string
mac_string [] = []
mac_string (b ∷ bs) = hex_digit (b / 16) ∷ hex_digit (b % 16) ∷ tail_string bs

-- `SupernodeMACAddr`: CA:FE:C0:FF:EE:00
abbrev pub supernode_mac_addr : HardwareAddr
supernode_mac_addr = 0xca ∷ 0xfe ∷ 0xc0 ∷ 0xff ∷ 0xee ∷ 0x00 ∷ []

pub is_sn_mac_addr : HardwareAddr → Bool
is_sn_mac_addr mac = mac_string mac == mac_string supernode_mac_addr

pub is_sn_mac_addr_string : Text → Bool
is_sn_mac_addr_string s = s == mac_string supernode_mac_addr

-- The digits of one byte determine it.
hex_pair_inj :
    (a b : ℕ)
    → a < 256
    → b < 256
    → hex_digit (a / 16) ≡ hex_digit (b / 16)
    → hex_digit (a % 16) ≡ hex_digit (b % 16)
    → a ≡ b
hex_pair_inj a b ha hb h k = ground arith

tail_string_inj :
    (a b : HardwareAddr) → IsBytes a → IsBytes b → tail_string a ≡ tail_string b → a ≡ b
unfolding tail_string
tail_string_inj [] [] ha hb h = refl
tail_string_inj [] (y ∷ ys) ha hb h = cc
tail_string_inj (x ∷ xs) [] ha hb h = cc
tail_string_inj (x ∷ xs) (y ∷ ys) ha hb h =
    ap₂ ◌∷◌ (hex_pair_inj x y ha.0 hb.0 (cc) (cc)) (tail_string_inj xs ys ha.1 hb.1 (cc))

-- Addresses of proper bytes with the same printed form are the same.
pub mac_string_inj :
    (a b : HardwareAddr) → IsBytes a → IsBytes b → mac_string a ≡ mac_string b → a ≡ b
unfolding mac_string
mac_string_inj [] [] ha hb h = refl
mac_string_inj [] (y ∷ ys) ha hb h = cc
mac_string_inj (x ∷ xs) [] ha hb h = cc
mac_string_inj (x ∷ xs) (y ∷ ys) ha hb h =
    ap₂ ◌∷◌ (hex_pair_inj x y ha.0 hb.0 (cc) (cc)) (tail_string_inj xs ys ha.1 hb.1 (cc))

-- `IsSNMacAddr` accepts the supernode's own address and no other.
pub is_sn_mac_addr_exact :
    (mac : HardwareAddr) → IsBytes mac → (is_sn_mac_addr mac ≡ true) ↔ (mac ≡ supernode_mac_addr)
unfolding is_sn_mac_addr
is_sn_mac_addr_exact mac h = (
  λ e.
      mac_string_inj mac supernode_mac_addr h (omega arith)
        ((text_beq_iff (mac_string mac) (mac_string supernode_mac_addr)).0 e),
  λ e. rw e (eq_refl (mac_string supernode_mac_addr)),
)
