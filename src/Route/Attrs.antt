-- ===== src/Route/Attrs.antt =====
-- `appendAddrAttrs` of route/cmd/route/main_bsd.go, and `IoctlGetIfaFlagInet6` of
-- route/bsdroute/bsdroute_bsd.go. A pointer into a buffer is the bytes from there to its end, as in
-- `ParseAddrs`. The sizes and the fields of an address are those of golang.org/x/sys/unix and are
-- parameters, its first two bytes are its length and its family. A pointer may only be taken for one
-- to a struct that is in the buffer; else the memory behind the buffer is read.
use cubic_go_playground.Prelude.{
  ℕ, ◌+◌, ◌*◌, ◌-◌, Bool, false, not, ◌&&◌, List, [], ◌∷◌, ◌++◌, Option, none, some, Bytes, String,
  length, take, replicate, get_elem?, ltb, ◌==◌, if◌then◌else◌,
}
use cubic_go_playground.Prelude.Result.{Result, err, ok}
use cubic_go_playground.Ip.Endpoint.{Addr}
use cubic_go_playground.Ip.Netip.{addr_from4, addr_from16, is_unspecified, with_zone}
use cubic_go_playground.Route.Messages.{byte_at}

-- The names of the attributes.
pub data Name : Type 0 where
  dst : Name
  gateway : Name
  netmask : Name
  genmask : Name
  ifp : Name
  ifa : Name

pub data Attr : Type 0 where
  addr : Name → Addr → Attr
  group : Name → (index : ℕ) → Bytes → Attr
  ifa_flags : ℕ → Attr

pub data Attrs : Type 0 where
  attrs : List Attr → Attrs
  past_end : Attrs

-- The numbers that a field holds, an IPv6 address as one number.
pub record Fields : Type 0 where
  pub inet4_addr : Bytes → ℕ
  pub inet6_addr : Bytes → ℕ
  pub inet6_scope_id : Bytes → ℕ
  pub link_index : Bytes → ℕ
  pub link_nlen : Bytes → ℕ
  pub link_data : Bytes → Bytes

-- `ZoneCache.Name` of netx-go, the unique numbers of zone names, and the ioctl: what it leaves at the
-- place of its argument, or an error.
pub record Calls : Type 0 where
  pub zone_name : ℕ → Bytes
  pub number_of : Bytes → ℕ
  pub ioctl : (fd req : ℕ) → (ifr : Bytes × Bytes) → Result ℕ (Bytes × Bytes)

abbrev pub then_attrs : Attrs → (List Attr → Attrs) → Attrs
then_attrs past_end next = past_end
then_attrs (attrs l) next = next l

-- The bytes that a copy into an array leaves in it.
abbrev pub copied : ℕ → Bytes → Bytes
copied size b = take size (b ++ replicate size 0)

abbrev pub word_at : ℕ → Bytes → ℕ
word_at i b =
    byte_at i b + 256 * (byte_at (i + 1) b + 256 * (byte_at (i + 2) b + 256 * byte_at (i + 3) b))

-- An address that says it is shorter than its struct is left out.
abbrev pub of_size : ℕ → Bytes → List Attr → List Attr → Attrs
of_size size sa l more =
    if ltb (byte_at 0 sa) size
    then attrs l
    else if ltb (length sa) size
    then past_end
    else attrs more

-- The address of that number.
abbrev pub slot : (String → ℕ) → List (Option Bytes) → String → Option Bytes
slot unix addrs rtax = elim (get_elem? addrs (unix rtax)) [ none ↦ none | some sa ↦ sa ]

module _ (unix : String → ℕ) (fields : Fields) (calls : Calls) where
  unfoldable pub ioctl_get_ifa_flag_inet6 : ℕ → Bytes → Bytes → Result ℕ ℕ
  ioctl_get_ifa_flag_inet6 fd name sa =
      let ifr : Bytes × Bytes = (
        copied (unix "IFNAMSIZ") name,
        take (unix "SizeofSockaddrInet6") sa ++ replicate (272 - unix "SizeofSockaddrInet6") 0,
      ) in
      elim (calls.ioctl fd 0xc1206949 ifr) [
        | err e ↦ err e
        | ok (name', ifru) ↦ ok (word_at 0 ifru)
      ]

  -- The flags of an interface address, if there are any.
  unfoldable pub append_ifa_flags : List Attr → Name → Bytes → ℕ → ℕ → List Attr
  append_ifa_flags l ifa sa fd ifindex = elim (calls.zone_name ifindex) [
    | [] ↦ l
    | c ∷ ifname ↦ elim (ioctl_get_ifa_flag_inet6 fd (c ∷ ifname) sa) [
      | err e ↦ l
      | ok flags ↦ l ++ ifa_flags flags ∷ []
    ]
  ]
  append_ifa_flags l _ sa fd ifindex = l

  -- The three cases of the switch, for an address that says it is long enough.
  unfoldable pub append_inet4 : List Attr → Name → Bytes → Bool → List Attr
  append_inet4 l name sa unspecified_only =
      let addr4 = addr_from4 (fields.inet4_addr sa) in
      if unspecified_only && not (is_unspecified addr4) then l else l ++ addr name addr4 ∷ []

  unfoldable pub append_inet6 : List Attr → Name → Bytes → ℕ → ℕ → Bool → List Attr
  append_inet6 l name sa fd ifindex unspecified_only =
      let addr6 =
        with_zone calls.number_of (addr_from16 (fields.inet6_addr sa))
          (calls.zone_name (fields.inet6_scope_id sa)) in
      if unspecified_only && not (is_unspecified addr6)
      then l
      else append_ifa_flags (l ++ addr name addr6 ∷ []) name sa fd ifindex

  unfoldable pub append_link : List Attr → Name → Bytes → List Attr
  append_link l name sa =
      if ltb (length (fields.link_data sa)) (fields.link_nlen sa)
      then l
      else l
        ++ group name (fields.link_index sa) (take (fields.link_nlen sa) (fields.link_data sa)) ∷ []

  unfoldable pub append_addr_attr : List Attr → Name → Option Bytes → ℕ → ℕ → Bool → Attrs
  append_addr_attr l name none fd ifindex unspecified_only = attrs l
  append_addr_attr l name (some sa) fd ifindex unspecified_only =
      if byte_at 1 sa == unix "AF_INET"
      then of_size (unix "SizeofSockaddrInet4") sa l (append_inet4 l name sa unspecified_only)
      else if byte_at 1 sa == unix "AF_INET6"
      then of_size (unix "SizeofSockaddrInet6") sa l
          (append_inet6 l name sa fd ifindex unspecified_only)
      else if byte_at 1 sa == unix "AF_LINK"
      then of_size (unix "SizeofSockaddrDatalink") sa l (append_link l name sa)
      else attrs l

  unfoldable pub append_addr_attrs : List Attr → List (Option Bytes) → ℕ → ℕ → Bool → Attrs
  append_addr_attrs l addrs fd ifindex default_route_only =
      then_attrs (append_addr_attr l dst (slot unix addrs "RTAX_DST") fd ifindex default_route_only)
        (λ l1.
          then_attrs (append_addr_attr l1 gateway (slot unix addrs "RTAX_GATEWAY") fd ifindex false)
            (λ l2.
              then_attrs
                (append_addr_attr l2 netmask (slot unix addrs "RTAX_NETMASK") fd ifindex
                  default_route_only)
                (λ l3.
                  then_attrs
                    (append_addr_attr l3 genmask (slot unix addrs "RTAX_GENMASK") fd ifindex false)
                    (λ l4.
                      then_attrs
                        (append_addr_attr l4 ifp (slot unix addrs "RTAX_IFP") fd ifindex false)
                        (λ l5.
                          append_addr_attr l5 ifa (slot unix addrs "RTAX_IFA") fd ifindex false)))))
