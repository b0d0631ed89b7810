-- ===== src/Tuntap/Arp.antt =====
-- `SendGratuitousARP` of pkg/tuntap/arp.go: the frame that tells a host's neighbours its address.
pub mod Shape
use n2n_go.Base.{◌&&◌, [], ◌∷◌, ◌++◌, ltb, nat_beq, if◌then◌else◌, length, take, drop, replicate}
use n2n_go.Base.Bytes.{be16}
use n2n_go.Base.Exec.{ok, Result, err}
use n2n_go.Base.Keys.{Text, ◌==◌, text_eq, nat_eq}
use n2n_go.Errors.{Error}
use n2n_go.Net.{IpAddr}
use n2n_go.Protocol.Mac.{is_nil, HardwareAddr}

abbrev v4_in_v6 : Text
v4_in_v6 = replicate 10 0 ++ 0xff ∷ 0xff ∷ []

-- `net.IP.To4`, nil being empty
unfoldable pub to4 : IpAddr → IpAddr
to4 ip =
    if nat_beq (length ip) 4
    then ip
    else if nat_beq (length ip) 16 && take 12 ip == v4_in_v6
    then drop 12 ip
    else []

-- The ARP reply, whose sender is its target.
arp_packet : HardwareAddr → IpAddr → Text
arp_packet mac ip =
    be16 1 ++ (be16 0x0800 ++ (6 ∷ 4 ∷ [] ++ (be16 2 ++ (mac ++ (ip ++ (mac ++ ip))))))

unfoldable pub arp_frame : HardwareAddr → IpAddr → Text
unfolding arp_packet
arp_frame mac ip = replicate 6 0xff ++ (mac ++ (0x08 ∷ 0x06 ∷ [] ++ arp_packet mac ip))

-- The frame that is sent for an address, from the interface's own.
unfoldable pub gratuitous_arp : IpAddr → HardwareAddr → Result Error Text
unfolding arp_frame
gratuitous_arp vip mac =
    if is_nil (to4 vip)
    then err Error.not_ipv4
    else if ltb (length mac) 6
    then err Error.no_hardware_addr
    else ok (arp_frame (take 6 mac) (to4 vip))
