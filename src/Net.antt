-- ===== src/Net.antt =====
-- The addresses of package net that the program tells apart: `net.Addr` by its dynamic type.
use n2n_go.Base.{
  ℕ, Bool, true, false, ◌&&◌, Option, none, some, [], ◌∷◌, ◌++◌, nat_beq, if◌then◌else◌, length,
  replicate,
}
use n2n_go.Base.Keys.{◌==◌, Text, text_eq, nat_eq}

-- `net.IP`; nil is the empty sequence.
abbrev pub IpAddr : Type 0
IpAddr = Text

pub data Addr : Type 0 where
  -- a nil interface
  nil_addr : Addr
  udp : IpAddr → ℕ → Addr
  tcp : IpAddr → ℕ → Addr
  -- `*wssAddr`, by its connection id
  wss : Text → Addr

-- `addrToIP` of pkg/supernode/community.go
unfoldable pub addr_to_ip : Addr → Option IpAddr
addr_to_ip (udp ip port) = some ip
addr_to_ip (tcp ip port) = some ip
addr_to_ip nil_addr = none
addr_to_ip (wss conn) = none

-- `addrToPort`
unfoldable pub addr_to_port : Addr → Option ℕ
addr_to_port (udp ip port) = some port
addr_to_port (tcp ip port) = some port
addr_to_port nil_addr = none
addr_to_port (wss conn) = none

abbrev pub is_nil_addr : Addr → Bool
is_nil_addr nil_addr = true
is_nil_addr (udp ip port) = false
is_nil_addr (tcp ip port) = false
is_nil_addr (wss conn) = false

v4_in_v6_prefix : Text
v4_in_v6_prefix = replicate 10 0 ++ 0xff ∷ 0xff ∷ []

-- `net.IP.Equal`
unfoldable pub ip_equal : IpAddr → IpAddr → Bool
unfolding v4_in_v6_prefix
ip_equal ip x =
    if nat_beq (length ip) (length x)
    then ip == x
    else if nat_beq (length ip) 4 && nat_beq (length x) 16
    then x == v4_in_v6_prefix ++ ip
    else if nat_beq (length ip) 16 && nat_beq (length x) 4
    then ip == v4_in_v6_prefix ++ x
    else false
