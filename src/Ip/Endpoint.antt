-- ===== src/Ip/Endpoint.antt =====
-- The functions of ip/ip.go. `Addr` and `AddrPort` are those of net/netip: 128 bits and a zone,
-- which also tells an IPv4 address, whose bits are those of its IPv4-mapped form, and the zero
-- value. A zone name is its unique number.
use cubic_go_playground.Prelude.{ℕ, ◌/◌, ◌^◌, Bool, true, false, not, ◌&&◌, ◌==◌, if◌then◌else◌}

pub data Zone : Type 0 where
  z0 : Zone
  z4 : Zone
  z6noz : Zone
  z6 : ℕ → Zone

pub record Addr : Type 0 where
  pub ip : ℕ
  pub z : Zone

pub record AddrPort : Type 0 where
  pub addr : Addr
  pub port : ℕ

unfoldable pub same_zone : Zone → Zone → Bool
same_zone z0 z0 = true
same_zone z4 z4 = true
same_zone z6noz z6noz = true
same_zone (z6 n) (z6 m) = n == m
same_zone _ _ = false

abbrev pub same_addr : Addr → Addr → Bool
same_addr l r = (l.ip == r.ip) && same_zone l.z r.z

abbrev pub same_endpoint : AddrPort → AddrPort → Bool
same_endpoint l r = same_addr l.addr r.addr && (l.port == r.port)

unfoldable pub is4 : Addr → Bool
is4 a = same_zone a.z z4

unfoldable pub is4_in6 : Addr → Bool
is4_in6 a = not (same_zone a.z z0) && (not (same_zone a.z z4) && (a.ip / 2 ^ 32 == 0xffff))

unfoldable pub unmap : Addr → Addr
unmap a = if is4_in6 a then record a { z = z4 } else a

unfoldable pub addr_port_mapped_equal : AddrPort → AddrPort → Bool
addr_port_mapped_equal l r =
    if same_endpoint l r
    then true
    else (l.port == r.port) && same_addr (unmap l.addr) (unmap r.addr)

unfoldable pub addr_port_mapped_equal_unsafe : AddrPort → AddrPort → Bool
addr_port_mapped_equal_unsafe l r = (l.addr.ip == r.addr.ip) && (l.port == r.port)

-- `AddrFrom16(addr.As16())` has the bits of the address and no zone.
unfoldable pub addr_port_v4_mapped_v6 : AddrPort → AddrPort
addr_port_v4_mapped_v6 a =
    if is4 a.addr then record { addr = record { ip = a.addr.ip; z = z6noz }; port = a.port } else a

unfoldable pub addr_port_v4_mapped_v6_unsafe : AddrPort → AddrPort
addr_port_v4_mapped_v6_unsafe a =
    if is4 a.addr then record a { addr = record (a.addr) { z = z6noz } } else a
