-- ===== src/Ip/Equal.antt =====
-- When two endpoints are the same.
use cubic_go_playground.Prelude.{
  ◌/◌, ◌^◌, ◌≡◌, ◌↔◌, ◌≢◌, ◌⊎◌, refl, sym, ◌∙◌, Bool, true, false, arith,
}
use cubic_go_playground.Ip.Endpoint.{
  Zone, z0, z4, Addr, AddrPort, same_zone, same_addr, is4, is4_in6, unmap, addr_port_mapped_equal,
  addr_port_mapped_equal_unsafe, addr_port_v4_mapped_v6, addr_port_v4_mapped_v6_unsafe,
}
use cubic_go_playground.Ip.Netip.{without_zone}

same_zone_iff : (y z : Zone) → (same_zone y z ≡ true) ↔ (y ≡ z)
unfolding same_zone
same_zone_iff y z = ground arith

same_addr_iff : (l r : Addr) → (same_addr l r ≡ true) ↔ (l ≡ r)
same_addr_iff l r = ground (arith, same_zone_iff l.z r.z)

-- An endpoint whose IPv4-mapped address is made an IPv4 address.
abbrev canonical : AddrPort → AddrPort
canonical a = record a { addr = unmap a.addr }

addr_port_mapped_equal-canonical :
    (l r : AddrPort) → (addr_port_mapped_equal l r ≡ true) ↔ (canonical l ≡ canonical r)
unfolding addr_port_mapped_equal
addr_port_mapped_equal-canonical l r =
    ground (arith, same_addr_iff (unmap l.addr) (unmap r.addr), same_addr_iff l.addr r.addr)

Bool_ext : (b c : Bool) → (b ≡ true → c ≡ true) → (c ≡ true → b ≡ true) → b ≡ c
Bool_ext b c h g = ground arith

-- AddrPortMappedEqual says yes exactly if the endpoints are the same after an IPv4-mapped address
-- is made an IPv4 address; so it is an equivalence.
addr_port_mapped_equal-equivalence :
    (a b c : AddrPort)
    → (addr_port_mapped_equal a a ≡ true)
      × (addr_port_mapped_equal a b ≡ addr_port_mapped_equal b a)
      × (addr_port_mapped_equal a b ≡ true
          → addr_port_mapped_equal b c ≡ true
          → addr_port_mapped_equal a c ≡ true)
      × ((addr_port_mapped_equal a b ≡ true) ↔ (canonical a ≡ canonical b))
addr_port_mapped_equal-equivalence a b c = (
  (addr_port_mapped_equal-canonical a a).1 refl,
  Bool_ext (addr_port_mapped_equal a b) (addr_port_mapped_equal b a)
      (λ h.
        (addr_port_mapped_equal-canonical b a).1 (sym ((addr_port_mapped_equal-canonical a b).0 h)))
      (λ h.
        (addr_port_mapped_equal-canonical a b).1
          (sym ((addr_port_mapped_equal-canonical b a).0 h))),
  λ h g.
      (addr_port_mapped_equal-canonical a c).1
        ((addr_port_mapped_equal-canonical a b).0 h ∙ (addr_port_mapped_equal-canonical b c).0 g),
  addr_port_mapped_equal-canonical a b,
)

-- An address of net/netip that is not the zero value: an IPv4 address has the bits of its mapped
-- form.
abbrev pub IsNetip : Addr → Type 0
IsNetip a = ((a.z ≡ z4) × (a.ip / 2 ^ 32 ≡ 0xffff)) ⊎ ((a.z ≢ z4) × (a.z ≢ z0))

abbrev pub zoneless : AddrPort → AddrPort
zoneless a = record a { addr = without_zone a.addr }

-- On addresses of net/netip that are not the zero value, AddrPortMappedEqualUnsafe says what
-- AddrPortMappedEqual says of the endpoints without their zone names.
pub addr_port_mapped_equal_unsafe-zoneless :
    (l r : AddrPort)
    → IsNetip l.addr
    → IsNetip r.addr
    → addr_port_mapped_equal_unsafe l r ≡ addr_port_mapped_equal (zoneless l) (zoneless r)
unfolding addr_port_mapped_equal addr_port_mapped_equal_unsafe unmap is4_in6 same_zone
addr_port_mapped_equal_unsafe-zoneless l r h g = ground arith

-- For an endpoint of net/netip, whose IPv4 address has the bits of its mapped form: both forms of
-- the mapping agree, the result is no IPv4 address, and AddrPortMappedEqual does not tell it from
-- the endpoint itself.
pub addr_port_v4_mapped_v6-unsafe :
    (a : AddrPort)
    → (a.addr.z ≡ z4 → a.addr.ip / 2 ^ 32 ≡ 0xffff)
    → (addr_port_v4_mapped_v6 a ≡ addr_port_v4_mapped_v6_unsafe a)
      × (is4 (addr_port_v4_mapped_v6 a).addr ≡ false)
      × (addr_port_mapped_equal (addr_port_v4_mapped_v6 a) a ≡ true)
unfolding addr_port_v4_mapped_v6 addr_port_v4_mapped_v6_unsafe is4 addr_port_mapped_equal unmap
    is4_in6 same_zone
addr_port_v4_mapped_v6-unsafe a h = ground arith
