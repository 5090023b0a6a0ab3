-- ===== src/Tslog/Texts.antt =====
-- The two forms of the attributes of logging/tslog/tslog.go for addresses and prefixes.
use cubic_go_playground.Prelude.{◌≡◌, ◌⊎◌, [], true, ◌||◌, Bytes, codes, if◌then◌else◌, arith}
use cubic_go_playground.Ip.Endpoint.{Addr, AddrPort, same_zone}
use cubic_go_playground.Ip.Netip.{Prefix}
use cubic_go_playground.Tslog.Attrs.{
  string, is_valid_prefix, is_zero_prefix, addr, addr_marshal_text, addr_port,
  addr_port_marshal_text, prefix, prefix_marshal_text,
}

-- `Addr` and `AddrMarshalText` give the same attribute, and so do `AddrPort` and
-- `AddrPortMarshalText`, and `Prefix` and `PrefixMarshalText` if the prefix is valid or the zero
-- value; of any other prefix `Prefix` shows nothing and `PrefixMarshalText` that it is invalid.
addr-marshal_text :
    (addr_text : Addr → Bytes) (addr_port_text : AddrPort → Bytes) (key : Bytes) (a : Addr)
    (ap : AddrPort) (p : Prefix)
    → (addr addr_text addr_port_text key a ≡ addr_marshal_text addr_text addr_port_text key a)
      × (addr_port addr_text addr_port_text key ap
          ≡ addr_port_marshal_text addr_text addr_port_text key ap)
      × (prefix_marshal_text addr_text addr_port_text key p ≡ (
          if is_valid_prefix p || is_zero_prefix p
          then prefix addr_text addr_port_text key p
          else record { key = key; value = string (codes "invalid Prefix") }))
      × ((prefix addr_text addr_port_text key p ≡ record { key = key; value = string [] })
          ⊎ (is_valid_prefix p ≡ true))
unfolding addr addr_marshal_text addr_port addr_port_marshal_text prefix prefix_marshal_text
    same_zone
addr-marshal_text addr_text addr_port_text key a ap p = ground arith
