-- ===== src/Windows/Rows.antt =====
-- The routes of route/cmd/route/main_windows.go and their addresses. The constants of
-- golang.org/x/sys/windows, and where an address stands in a `RawSockaddrInet`, are parameters; the
-- address is read as one number.
use cubic_go_playground.Prelude.{ℕ, Bool, not, ◌&&◌, ◌||◌, Bytes, ◌==◌, if◌then◌else◌}
use cubic_go_playground.Ip.Endpoint.{Addr}
use cubic_go_playground.Ip.Netip.{
  Prefix, prefix_from, addr_from4, addr_from16, zero_addr, is_unspecified,
}

-- `RawSockaddrInet`.
pub record Sockaddr : Type 0 where
  pub family : ℕ
  pub data_bytes : Bytes

pub record IpAddressPrefix : Type 0 where
  pub prefix : Sockaddr
  pub prefix_length : ℕ

pub record MibIpForwardRow2 : Type 0 where
  pub interface_luid : ℕ
  pub interface_index : ℕ
  pub destination_prefix : IpAddressPrefix
  pub next_hop : Sockaddr
  pub site_prefix_length : ℕ
  pub valid_lifetime : ℕ
  pub preferred_lifetime : ℕ
  pub metric : ℕ
  pub protocol : ℕ
  pub loopback : ℕ
  pub autoconfigure_address : ℕ
  pub publish : ℕ
  pub immortal : ℕ
  pub age : ℕ
  pub origin : ℕ

pub record Constants : Type 0 where
  pub af_inet : ℕ
  pub af_inet6 : ℕ
  pub inet4_addr : Bytes → ℕ
  pub inet6_addr : Bytes → ℕ
  pub mib_parameter_notification : ℕ
  pub mib_add_instance : ℕ
  pub mib_delete_instance : ℕ
  pub mib_initial_notification : ℕ
  pub error_not_found : ℕ

-- The condition of `logMibIpForwardRow2` on which a row is left out.
unfoldable pub is_left_out : Bool → Prefix → Bool
is_left_out default_only p =
    default_only && (not (p.bits_plus_one == 1) || not (is_unspecified p.ip))

module _ (c : Constants) where
  unfoldable pub ip_from_sockaddr_inet : Sockaddr → Addr
  ip_from_sockaddr_inet sa =
      if sa.family == c.af_inet
      then addr_from4 (c.inet4_addr sa.data_bytes)
      else if sa.family == c.af_inet6
      then addr_from16 (c.inet6_addr sa.data_bytes)
      else zero_addr

  unfoldable pub prefix_from_ip_address_prefix : IpAddressPrefix → Prefix
  prefix_from_ip_address_prefix p = prefix_from (ip_from_sockaddr_inet p.prefix) p.prefix_length
