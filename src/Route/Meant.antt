-- ===== src/Route/Meant.antt =====
-- What the addresses of a message mean, and what is to be shown of them: a description of its own of
-- what `appendAddrAttrs` of route/cmd/route/main_bsd.go lists.
use cubic_go_playground.Prelude.{
  ℕ, ◌+◌, ◌*◌, ◌-◌, ◌≤◌, ◌≡◌, Bool, false, not, ◌||◌, List, [], ◌∷◌, ◌++◌, Option, some, Bytes,
  String, length, take, get_elem?, replicate, leb, ◌==◌, if◌then◌else◌,
}
use cubic_go_playground.Prelude.Result.{Result, err, ok}
use cubic_go_playground.Ip.Endpoint.{Addr}
use cubic_go_playground.Ip.Netip.{is_unspecified, with_zone, addr_from4, addr_from16}
use cubic_go_playground.Route.Messages.{byte_at}
use cubic_go_playground.Route.Attrs.{
  Name, dst, gateway, netmask, genmask, ifp, ifa, Attr, addr, group, ifa_flags, Fields, Calls,
}

-- What the bytes of an address mean.
pub data Meaning : Type 0 where
  means_ip4 : Addr → Meaning
  means_ip6 : Addr → Meaning
  means_link : (index : ℕ) → (ifname : Bytes) → Meaning
  unreadable : Meaning

-- An IP address is shown unless only the unspecified ones are.
abbrev pub is_shown : Bool → Addr → Bool
is_shown only a = is_unspecified a || not only

-- The flags that a call leaves in the first word behind the name, if it does not fail.
abbrev pub first_word : Result ℕ (Bytes × Bytes) → List Attr
first_word (err e) = []
first_word (ok (name, ifru)) =
    ifa_flags (
      byte_at 0 ifru
      + 0x100 * byte_at 1 ifru
      + 0x10000 * byte_at 2 ifru
      + 0x1000000 * byte_at 3 ifru)
    ∷ []

module _ (unix : String → ℕ) (fields : Fields) (calls : Calls) where
  abbrev pub link_meaning : Bytes → Meaning
  link_meaning sa =
      let nlen : ℕ = fields.link_nlen sa in
      if leb nlen (length (fields.link_data sa))
      then means_link (fields.link_index sa) (take nlen (fields.link_data sa))
      else unreadable

  -- An address has the meaning that its family gives it, if it says that it is as long as the struct
  -- of that family.
  abbrev pub meaning : Bytes → Meaning
  meaning sa =
      let if_long : String → Meaning → Meaning =
        λ struct m. if leb (unix struct) (byte_at 0 sa) then m else unreadable in
      let zone : Bytes = calls.zone_name (fields.inet6_scope_id sa) in
      if byte_at 1 sa == unix "AF_INET"
      then if_long "SizeofSockaddrInet4" (means_ip4 (addr_from4 (fields.inet4_addr sa)))
      else if byte_at 1 sa == unix "AF_INET6"
      then if_long "SizeofSockaddrInet6"
          (means_ip6 (with_zone calls.number_of (addr_from16 (fields.inet6_addr sa)) zone))
      else if byte_at 1 sa == unix "AF_LINK"
      then if_long "SizeofSockaddrDatalink" (link_meaning sa)
      else unreadable

  -- What the system tells of the address of an interface of that name: the flags are the first word
  -- of the union of 272 bytes that the call leaves behind the name.
  abbrev pub flags_of : Bytes → Bytes → ℕ → List Attr
  flags_of [] sa fd = []
  flags_of (c ∷ ifname) sa fd =
      let size : ℕ = unix "IFNAMSIZ" in
      let padded : Bytes = take size ((c ∷ ifname) ++ replicate size 0) in
      let sockaddr : Bytes = take (unix "SizeofSockaddrInet6") sa in
      let zeros : Bytes = replicate (272 - unix "SizeofSockaddrInet6") 0 in
      first_word (calls.ioctl fd 0xc1206949 (padded, sockaddr ++ zeros))

  -- The flags stand behind the address of the interface only.
  abbrev pub flags_behind : Name → Bytes → (fd ifindex : ℕ) → List Attr
  flags_behind ifa sa fd ifindex = flags_of (calls.zone_name ifindex) sa fd
  flags_behind _ sa fd ifindex = []

  abbrev pub told_as : Meaning → Bool → Name → Bytes → (fd ifindex : ℕ) → List Attr
  told_as (means_ip4 a) only name sa fd ifindex = if is_shown only a then addr name a ∷ [] else []
  told_as (means_ip6 a) only name sa fd ifindex =
      if is_shown only a then addr name a ∷ flags_behind name sa fd ifindex else []
  told_as (means_link index ifname) only name sa fd ifindex = group name index ifname ∷ []
  told_as unreadable only name sa fd ifindex = []

  -- What is shown of a slot under a name, if there is an address in it.
  abbrev pub shows : Bool → Name → Option (Option Bytes) → (fd ifindex : ℕ) → List Attr
  shows only name (some (some sa)) fd ifindex = told_as (meaning sa) only name sa fd ifindex
  shows only name _ fd ifindex = []

  -- An address that says it is a whole IPv6 or link address is whole.
  abbrev pub Whole : Bytes → Type 0
  Whole sa =
      (byte_at 1 sa ≡ unix "AF_INET6"
        → unix "SizeofSockaddrInet6" ≤ byte_at 0 sa
        → unix "SizeofSockaddrInet6" ≤ length sa)
      × (byte_at 1 sa ≡ unix "AF_LINK"
          → unix "SizeofSockaddrDatalink" ≤ byte_at 0 sa
          → unix "SizeofSockaddrDatalink" ≤ length sa)

  -- What is shown of the addresses of a message: those of the destination, the gateway, the two
  -- masks, the interface and its address, in this order. The filter is for the destination and its
  -- mask only.
  abbrev pub shows_all : Bool → List (Option Bytes) → (fd ifindex : ℕ) → List Attr
  shows_all only addrs fd ifindex =
      shows only dst (get_elem? addrs (unix "RTAX_DST")) fd ifindex
      ++ (shows false gateway (get_elem? addrs (unix "RTAX_GATEWAY")) fd ifindex
          ++ (shows only netmask (get_elem? addrs (unix "RTAX_NETMASK")) fd ifindex
              ++ (shows false genmask (get_elem? addrs (unix "RTAX_GENMASK")) fd ifindex
                  ++ (shows false ifp (get_elem? addrs (unix "RTAX_IFP")) fd ifindex
                      ++ shows false ifa (get_elem? addrs (unix "RTAX_IFA")) fd ifindex))))
