-- ===== src/Tslog/Attrs.antt =====
-- The attributes of logging/tslog/tslog.go. How net/netip writes a valid address, and an address with
-- a port, is a parameter; what it writes of others, and of a prefix, is that of its `String` and
-- `MarshalText`.
use cubic_go_playground.Prelude.{
  ℕ, ◌-◌, Bool, not, ◌&&◌, [], ◌∷◌, ◌++◌, Bytes, codes, itoa, ◌==◌, if◌then◌else◌,
}
use cubic_go_playground.Prelude.{ℤ}
use cubic_go_playground.Ip.Endpoint.{Addr, AddrPort, same_addr}
use cubic_go_playground.Ip.Netip.{Prefix, zero_addr, is_zero}

pub data Value : Type 0 where
  string : Bytes → Value
  int64 : ℤ → Value
  uint64 : ℕ → Value
  any_addr : Addr → Value
  any_addr_port : AddrPort → Value
  any_prefix : Prefix → Value

pub record Attr : Type 0 where
  pub key : Bytes
  pub value : Value

abbrev pub int : Bytes → ℤ → Attr
int key value = record { key = key; value = int64 value }

abbrev pub uint : Bytes → ℕ → Attr
uint key value = record { key = key; value = uint64 value }

abbrev pub byte_string : Bytes → Bytes → Attr
byte_string key b = record { key = key; value = string b }

-- `Prefix.IsValid`, and whether it is the zero value.
abbrev pub is_valid_prefix : Prefix → Bool
is_valid_prefix p = not (p.bits_plus_one == 0)

abbrev pub is_zero_prefix : Prefix → Bool
is_zero_prefix p = same_addr p.ip zero_addr && (p.bits_plus_one == 0)

module _ (addr_text : Addr → Bytes) (addr_port_text : AddrPort → Bytes) where
  -- `String` and `MarshalText` of net/netip.
  abbrev pub addr_string : Addr → Bytes
  addr_string a = if is_zero a then codes "invalid IP" else addr_text a

  abbrev pub addr_marshal : Addr → Bytes
  addr_marshal a = if is_zero a then [] else addr_text a

  abbrev pub addr_port_string : AddrPort → Bytes
  addr_port_string a = if is_zero a.addr then codes "invalid AddrPort" else addr_port_text a

  abbrev pub addr_port_marshal : AddrPort → Bytes
  addr_port_marshal a = if is_zero a.addr then [] else addr_port_text a

  abbrev pub prefix_text : Prefix → Bytes
  prefix_text p = addr_text p.ip ++ b'/' ∷ itoa 3 (p.bits_plus_one - 1) []

  abbrev pub prefix_string : Prefix → Bytes
  prefix_string p = if is_valid_prefix p then prefix_text p else codes "invalid Prefix"

  abbrev pub prefix_marshal : Prefix → Bytes
  prefix_marshal p = if is_zero_prefix p then [] else prefix_string p

  unfoldable pub addr : Bytes → Addr → Attr
  addr key a =
      let s = if not (is_zero a) then addr_string a else [] in
      record { key = key; value = string s }

  unfoldable pub addr_marshal_text : Bytes → Addr → Attr
  addr_marshal_text key a = record { key = key; value = string (addr_marshal a) }

  unfoldable pub addr_port : Bytes → AddrPort → Attr
  addr_port key a =
      let s = if not (is_zero a.addr) then addr_port_string a else [] in
      record { key = key; value = string s }

  unfoldable pub addr_port_marshal_text : Bytes → AddrPort → Attr
  addr_port_marshal_text key a = record { key = key; value = string (addr_port_marshal a) }

  unfoldable pub prefix : Bytes → Prefix → Attr
  prefix key p =
      let s = if is_valid_prefix p then prefix_string p else [] in
      record { key = key; value = string s }

  unfoldable pub prefix_marshal_text : Bytes → Prefix → Attr
  prefix_marshal_text key p = record { key = key; value = string (prefix_marshal p) }

abbrev pub addrp : Bytes → Addr → Attr
addrp key a = record { key = key; value = any_addr a }

abbrev pub addr_portp : Bytes → AddrPort → Attr
addr_portp key a = record { key = key; value = any_addr_port a }

abbrev pub prefixp : Bytes → Prefix → Attr
prefixp key p = record { key = key; value = any_prefix p }
