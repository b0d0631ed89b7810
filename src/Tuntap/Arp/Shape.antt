-- ===== src/Tuntap/Arp/Shape.antt =====
-- The frame that announces an address is an Ethernet broadcast of an ARP packet.
use n2n_go.Base.{
  ℕ, suc, ◌≤◌, ◌≡◌, refl, subst, inl, inr, true, false, ◌&&◌, [], ◌∷◌, arith, ltb, nat_beq,
  Bool-cases, length, take, drop, length-take, length-drop,
}
use n2n_go.Base.Bytes.{u16, byte_at}
use n2n_go.Base.Exec.{ok}
use n2n_go.Base.Keys.{◌==◌, Text, text_eq, nat_eq}
use n2n_go.Net.{IpAddr}
use n2n_go.Protocol.Mac.{is_nil, HardwareAddr}
use n2n_go.Tuntap.Arp.{arp_frame, to4, gratuitous_arp, v4_in_v6}
use n2n_go.Tuntap.Frame.{
  Ethertype, get_ethertype, is_broadcast, fast_destination, fast_source, fast_ethertype,
  fast_tagging_type,
}

length-to4 : (ip : IpAddr) → is_nil (to4 ip) ≡ false → length (to4 ip) ≡ 4
unfolding to4
length-to4 ip some_ip = elim (Bool-cases (nat_beq (length ip) 4)) [
  | inl four ↦ ground (arith, four)
  | inr other ↦ elim (Bool-cases (nat_beq (length ip) 16 && take 12 ip == v4_in_v6)) [
    | inl mapped ↦ ground (arith, other, mapped, length-drop 12 ip)
    | inr neither ↦ absurd (ground (arith, other, neither))
  ]
]

abbrev pub ethertype_arp : Ethertype
ethertype_arp = record { hi = 0x08; lo = 0x06 }

-- The field of two bytes that begins there.
abbrev field : ℕ → Text → ℕ
field i frame = u16 (byte_at i frame) (byte_at (suc i) frame)

-- An Ethernet broadcast from an address, of an ARP reply (hardware type 1, protocol 0x0800, addresses
-- of 6 and 4 bytes, operation 2) whose sender and target both have that address and this IPv4 one.
abbrev pub IsAnnouncement : HardwareAddr → IpAddr → Text → Type 0
IsAnnouncement mac ip frame =
    (length frame ≡ 42)
    × (is_broadcast (fast_destination frame) ≡ true)
    × (fast_source frame ≡ mac)
    × (get_ethertype frame ≡ ok ethertype_arp)
    × (field 14 frame ≡ 1)
    × (field 16 frame ≡ 0x0800)
    × (byte_at 18 frame ≡ 6)
    × (byte_at 19 frame ≡ 4)
    × (field 20 frame ≡ 2)
    × (take 6 (drop 22 frame) ≡ mac)
    × (take 4 (drop 28 frame) ≡ ip)
    × (take 6 (drop 32 frame) ≡ mac)
    × (drop 38 frame ≡ ip)

module _ (a b c d e f : ℕ) where
  abbrev six_bytes : Text
  six_bytes = a ∷ b ∷ c ∷ d ∷ e ∷ f ∷ []

  framed_bytes :
      (p q r s : ℕ)
      → IsAnnouncement six_bytes (p ∷ q ∷ r ∷ s ∷ []) (arp_frame six_bytes (p ∷ q ∷ r ∷ s ∷ []))
  unfolding arp_frame is_broadcast fast_destination fast_source get_ethertype fast_tagging_type
      fast_ethertype
  framed_bytes p q r s =
      (refl, refl, refl, refl, refl, refl, refl, refl, refl, refl, refl, refl, refl)

  framed_ip : (ip : Text) → length ip ≡ 4 → IsAnnouncement six_bytes ip (arp_frame six_bytes ip)
  framed_ip (p ∷ q ∷ r ∷ s ∷ []) four = framed_bytes p q r s
  framed_ip (p ∷ q ∷ r ∷ s ∷ t ∷ rest) four = absurd (omega arith)
  framed_ip (p ∷ q ∷ r ∷ []) four = absurd (omega arith)
  framed_ip (p ∷ q ∷ []) four = absurd (omega arith)
  framed_ip (p ∷ []) four = absurd (omega arith)
  framed_ip [] four = absurd (omega arith)

framed : (mac ip : Text) → length mac ≡ 6 → length ip ≡ 4 → IsAnnouncement mac ip (arp_frame mac ip)
framed (a ∷ b ∷ c ∷ d ∷ e ∷ f ∷ []) ip six four = framed_ip a b c d e f ip four
framed (a ∷ b ∷ c ∷ d ∷ e ∷ f ∷ g ∷ rest) ip six four = absurd (omega arith)
framed (a ∷ b ∷ c ∷ d ∷ e ∷ []) ip six four = absurd (omega arith)
framed (a ∷ b ∷ c ∷ d ∷ []) ip six four = absurd (omega arith)
framed (a ∷ b ∷ c ∷ []) ip six four = absurd (omega arith)
framed (a ∷ b ∷ []) ip six four = absurd (omega arith)
framed (a ∷ []) ip six four = absurd (omega arith)
framed [] ip six four = absurd (omega arith)

-- The frame that announces an address is an Ethernet broadcast of 42 bytes from the interface's address:
-- an ARP reply for Ethernet and IPv4, whose sender and target both have the interface's address and the
-- IPv4 form of the one announced. It is
-- made for the IPv4 addresses only, in either form, and for a hardware address of six bytes or more.
pub gratuitous_arp_ok :
    (vip : IpAddr) (mac : HardwareAddr) {frame : Text}
    → gratuitous_arp vip mac ≡ ok frame
    → (is_nil (to4 vip) ≡ false) × (6 ≤ length mac) × IsAnnouncement (take 6 mac) (to4 vip) frame
unfolding gratuitous_arp
gratuitous_arp_ok vip mac {frame} run = elim (Bool-cases (is_nil (to4 vip))) [
  | inl neither ↦ absurd (ground (arith, neither))
  | inr v4 ↦ elim (Bool-cases (ltb (length mac) 6)) [
    | inl short ↦ absurd (ground (arith, v4, short))
    | inr long ↦
        let enough : 6 ≤ length mac = ground (arith, long) in
        let made : arp_frame (take 6 mac) (to4 vip) ≡ frame = ground (arith, v4, long) in
        (
          v4,
          enough,
          subst (IsAnnouncement (take 6 mac) (to4 vip)) made
              (framed (take 6 mac) (to4 vip) (length-take 6 mac enough) (length-to4 vip v4)),
        )
  ]
]
