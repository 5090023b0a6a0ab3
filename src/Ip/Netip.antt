-- ===== src/Ip/Netip.antt =====
-- What the programs call of net/netip. A `Prefix` holds the number of its bits and one more, or 0 if
-- the number fits no address of that kind.
use cubic_go_playground.Prelude.{
  ℕ, suc, ◌+◌, ◌*◌, ◌^◌, Bool, true, false, not, ◌&&◌, ◌||◌, leb, [], ◌∷◌, Bytes, if◌then◌else◌,
}
use cubic_go_playground.Ip.Endpoint.{Addr, z0, z4, z6noz, z6, same_addr}

pub record Prefix : Type 0 where
  pub ip : Addr
  pub bits_plus_one : ℕ

-- `netip.AddrFrom4`, `netip.AddrFrom16` and the zero value.
abbrev pub addr_from4 : ℕ → Addr
addr_from4 n = record { ip = 0xffff * 2 ^ 32 + n; z = z4 }

abbrev pub addr_from16 : ℕ → Addr
addr_from16 n = record { ip = n; z = z6noz }

abbrev pub zero_addr : Addr
zero_addr = record { ip = 0; z = z0 }

-- `Addr.BitLen`.
abbrev pub bit_len : Addr → ℕ
bit_len a = elim (a.z) [ z0 ↦ 0 | z4 ↦ 32 | z6noz ↦ 128 | z6 n ↦ 128 ]

abbrev pub without_zone : Addr → Addr
without_zone a = elim (a.z) [ z0 ↦ a | z4 ↦ a | z6noz ↦ a | z6 n ↦ record a { z = z6noz } ]

-- `Addr.IsUnspecified`.
abbrev pub is_unspecified : Addr → Bool
is_unspecified a = same_addr a (addr_from4 0) || same_addr a (addr_from16 0)

abbrev pub is_zero : Addr → Bool
is_zero a = elim (a.z) [ z0 ↦ true | z4 ↦ false | z6noz ↦ false | z6 n ↦ false ]

-- `netip.PrefixFrom`, of a number of bits that is a byte.
unfoldable pub prefix_from : Addr → ℕ → Prefix
prefix_from a bits = record {
  ip = without_zone a;
  bits_plus_one = if not (is_zero a) && leb bits (bit_len a) then suc bits else 0;
}

-- `Addr.WithZone`, of a name and its unique number.
abbrev pub with_zone : (Bytes → ℕ) → Addr → Bytes → Addr
with_zone number_of a [] = without_zone a
with_zone number_of a (c ∷ name) = elim (a.z) [
  | z0 ↦ a
  | z4 ↦ a
  | z6noz ↦ record a { z = z6 (number_of (c ∷ name)) }
  | z6 n ↦ record a { z = z6 (number_of (c ∷ name)) }
]
