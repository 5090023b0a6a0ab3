-- ===== src/Ip/Tests.antt =====
-- Endpoints of ip at concrete inputs: 1.1.1.1, its IPv4-mapped form, and fe80::1 in two zones.
use cubic_go_playground.Prelude.{ℕ, ◌+◌, ◌*◌, ◌^◌, ◌≡◌, inr, refl, true, false, arith}
use cubic_go_playground.Ip.Endpoint.{
  Zone, z4, z6noz, z6, same_zone, is4_in6, unmap, AddrPort, is4, addr_port_mapped_equal,
  addr_port_mapped_equal_unsafe, addr_port_v4_mapped_v6, addr_port_v4_mapped_v6_unsafe,
}
use cubic_go_playground.Ip.Equal.{
  zoneless, addr_port_mapped_equal_unsafe-zoneless, addr_port_v4_mapped_v6-unsafe,
}

abbrev endpoint : ℕ → Zone → ℕ → AddrPort
endpoint ip z port = record { addr = record { ip = ip; z = z }; port = port }

abbrev bits4 : ℕ
bits4 = 0xffff * 2 ^ 32 + 0x01010101

abbrev v4 : AddrPort
v4 = endpoint bits4 z4 53

abbrev mapped : AddrPort
mapped = endpoint bits4 z6noz 53

abbrev link_local : ℕ
link_local = 0xfe80 * 2 ^ 112 + 1

addr_port_mapped_equal_unsafe-zoneless_example :
    addr_port_mapped_equal_unsafe (endpoint link_local (z6 1) 53) (endpoint link_local (z6 2) 53)
    ≡ addr_port_mapped_equal
        (zoneless (endpoint link_local (z6 1) 53))
        (zoneless (endpoint link_local (z6 2) 53))
addr_port_mapped_equal_unsafe-zoneless_example =
    addr_port_mapped_equal_unsafe-zoneless (endpoint link_local (z6 1) 53)
      (endpoint link_local (z6 2) 53) (inr (ground arith, ground arith))
      (inr (ground arith, ground arith))

-- Two zones of one link-local address.
zones_ignored :
    (addr_port_mapped_equal (endpoint link_local (z6 1) 53) (endpoint link_local (z6 2) 53) ≡ false)
    × (addr_port_mapped_equal_unsafe (endpoint link_local (z6 1) 53) (endpoint link_local (z6 2) 53)
        ≡ true)
unfolding addr_port_mapped_equal addr_port_mapped_equal_unsafe unmap is4_in6 same_zone
zones_ignored = (refl, refl)

addr_port_v4_mapped_v6-unsafe_example :
    (addr_port_v4_mapped_v6 v4 ≡ addr_port_v4_mapped_v6_unsafe v4)
    × (is4 (addr_port_v4_mapped_v6 v4).addr ≡ false)
    × (addr_port_mapped_equal (addr_port_v4_mapped_v6 v4) v4 ≡ true)
addr_port_v4_mapped_v6-unsafe_example = addr_port_v4_mapped_v6-unsafe v4 (λ _. refl)
