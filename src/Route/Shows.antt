-- ===== src/Route/Shows.antt =====
-- The cases of `appendAddrAttrs` of route/cmd/route/main_bsd.go, for one address of a message.
use cubic_go_playground.Prelude.{
  ℕ, ◌≤◌, ◌≡◌, inl, inr, refl, sym, ap, ◌∙◌, Bool, true, false, not, ◌&&◌, List, [], ◌∷◌, ◌++◌,
  append_assoc, append-nil, Option, none, some, Bytes, String, length, ltb, leb, ◌==◌, Bool-cases,
  if◌then◌else◌, arith,
}
use cubic_go_playground.Prelude.Result.{Result, err, ok}
use cubic_go_playground.Ip.Endpoint.{Addr}
use cubic_go_playground.Ip.Netip.{is_unspecified, with_zone, addr_from4, addr_from16}
use cubic_go_playground.Route.Messages.{byte_at}
use cubic_go_playground.Route.Meant.{
  Meaning, means_ip4, means_ip6, unreadable, is_shown, first_word, link_meaning, flags_of,
  flags_behind, told_as, shows, Whole,
}
use cubic_go_playground.Route.Attrs.{
  Name, ifa, Attr, addr, ifa_flags, attrs, Fields, Calls, word_at, append_ifa_flags, append_inet4,
  append_inet6, append_link, of_size, append_addr_attr, ioctl_get_ifa_flag_inet6,
}

first_word_lem :
    (l : List Attr) (r : Result ℕ (Bytes × Bytes))
    → elim (elim r as (λ r. Result ℕ ℕ) [ err e ↦ err e | ok x ↦ ok (word_at 0 x.1) ])
        as (λ r. List Attr) [ err e ↦ l | ok flags ↦ l ++ ifa_flags flags ∷ [] ]
      ≡ l ++ first_word r
first_word_lem l (err e) = sym (append-nil l)
first_word_lem l (ok (name, ifru)) = ap (λ f. l ++ ifa_flags f ∷ []) (omega arith)

module _ (unix : String → ℕ) (fields : Fields) (calls : Calls) where
  append_inet4_lem :
      (l : List Attr) (name : Name) (sa : Bytes) (fd ifindex : ℕ) (only : Bool)
      → append_inet4 unix fields calls l name sa only
        ≡ l
          ++ told_as unix fields calls
              (means_ip4 (addr_from4 (fields.inet4_addr sa)))
              only
              name
              sa
              fd
              ifindex
  unfolding append_inet4
  append_inet4_lem l name sa fd ifindex only =
      let a : Addr = addr_from4 (fields.inet4_addr sa) in
      elim (Bool-cases (is_shown only a)) [
        | inl shown ↦
            let kept : only && not (is_unspecified a) ≡ false = ground arith in
            rw kept (rw shown refl)
        | inr out ↦
            let left_out : only && not (is_unspecified a) ≡ true = ground arith in
            rw left_out (rw out (sym (append-nil l)))
      ]

  flags_of_lem :
      (l : List Attr) (ifname sa : Bytes) (fd : ℕ)
      → elim ifname [
        | [] ↦ l
        | c ∷ ifname ↦ elim (ioctl_get_ifa_flag_inet6 unix fields calls fd (c ∷ ifname) sa) [
          | err e ↦ l
          | ok flags ↦ l ++ ifa_flags flags ∷ []
        ]
      ]
        ≡ l ++ flags_of unix fields calls ifname sa fd
  unfolding ioctl_get_ifa_flag_inet6
  flags_of_lem l [] sa fd = sym (append-nil l)
  flags_of_lem l (c ∷ ifname) sa fd = first_word_lem l (calls.ioctl fd 0xc1206949 _)

  append_ifa_flags_lem :
      (l : List Attr) (name : Name) (sa : Bytes) (fd ifindex : ℕ)
      → append_ifa_flags unix fields calls l name sa fd ifindex
        ≡ l ++ flags_behind unix fields calls name sa fd ifindex
  unfolding append_ifa_flags
  append_ifa_flags_lem l ifa sa fd ifindex = flags_of_lem l (calls.zone_name ifindex) sa fd
  append_ifa_flags_lem l _ sa fd ifindex = sym (append-nil l)

  append_inet6_lem :
      (l : List Attr) (name : Name) (sa : Bytes) (fd ifindex : ℕ) (only : Bool)
      → append_inet6 unix fields calls l name sa fd ifindex only
        ≡ l
          ++ told_as unix fields calls
              (means_ip6 (
                with_zone calls.number_of
                  (addr_from16 (fields.inet6_addr sa))
                  (calls.zone_name (fields.inet6_scope_id sa))))
              only
              name
              sa
              fd
              ifindex
  unfolding append_inet6
  append_inet6_lem l name sa fd ifindex only =
      let a : Addr =
        with_zone calls.number_of (addr_from16 (fields.inet6_addr sa))
          (calls.zone_name (fields.inet6_scope_id sa)) in
      elim (Bool-cases (is_shown only a)) [
        | inl shown ↦
            let kept : only && not (is_unspecified a) ≡ false = ground arith in
            rw kept (
              rw shown (
                append_ifa_flags_lem (l ++ addr name a ∷ []) name sa fd ifindex
                ∙ append_assoc l (addr name a ∷ [])
                    (flags_behind unix fields calls name sa fd ifindex)))
        | inr out ↦
            let left_out : only && not (is_unspecified a) ≡ true = ground arith in
            rw left_out (rw out (sym (append-nil l)))
      ]

  append_link_lem :
      (l : List Attr) (name : Name) (sa : Bytes) (fd ifindex : ℕ) (only : Bool)
      → append_link unix fields calls l name sa
        ≡ l ++ told_as unix fields calls (link_meaning unix fields calls sa) only name sa fd ifindex
  unfolding append_link
  append_link_lem l name sa fd ifindex only =
      elim (Bool-cases (leb (fields.link_nlen sa) (length (fields.link_data sa)))) [
        | inl whole ↦
            let h : ltb (length (fields.link_data sa)) (fields.link_nlen sa) ≡ false =
              ground arith in
            rw h (rw whole refl)
        | inr cut ↦
            let h : ltb (length (fields.link_data sa)) (fields.link_nlen sa) ≡ true =
              ground arith in
            rw h (rw cut (sym (append-nil l)))
      ]

  -- An address of a family, with what it means if it says that it is as long as its struct.
  of_size_lem :
      (size : ℕ) (m : Meaning) (l more : List Attr) (name : Name) (sa : Bytes) (fd ifindex : ℕ)
      (only : Bool)
      → (size ≤ byte_at 0 sa → size ≤ length sa)
      → more ≡ l ++ told_as unix fields calls m only name sa fd ifindex
      → of_size size sa l more
        ≡ attrs (
            l
            ++ told_as unix fields calls
                (if leb size (byte_at 0 sa) then m else unreadable)
                only
                name
                sa
                fd
                ifindex)
  of_size_lem size m l more name sa fd ifindex only enough same =
      elim (Bool-cases (leb size (byte_at 0 sa))) [
        | inl long ↦
            let says : ltb (byte_at 0 sa) size ≡ false = ground arith in
            let fits : ltb (length sa) size ≡ false = ground arith in
            rw says (rw fits (rw long (ap attrs same)))
        | inr short ↦
            let says : ltb (byte_at 0 sa) size ≡ true = ground arith in
            rw says (rw short (ap attrs (sym (append-nil l))))
      ]

  pub append_addr_attr-shows :
      (l : List Attr) (name : Name) (o : Option (Option Bytes)) (fd ifindex : ℕ) (only : Bool)
      → ((sa : Bytes)
          → o ≡ some (some sa)
          → (unix "SizeofSockaddrInet4" ≤ length sa) × Whole unix fields calls sa)
      → append_addr_attr unix fields calls l name
          (elim o [ none ↦ none | some sa ↦ sa ])
          fd
          ifindex
          only
        ≡ attrs (l ++ shows unix fields calls only name o fd ifindex)
  unfolding append_addr_attr
  append_addr_attr-shows l name none fd ifindex only h = ap attrs (sym (append-nil l))
  append_addr_attr-shows l name (some none) fd ifindex only h = ap attrs (sym (append-nil l))
  append_addr_attr-shows l name (some (some sa)) fd ifindex only h =
      let (enough4, (enough6, enough)) = h sa refl in
      elim (Bool-cases (byte_at 1 sa == unix "AF_INET")) [
        | inl is4 ↦ rw is4 (
            of_size_lem (unix "SizeofSockaddrInet4") _ l _ name sa fd ifindex only (λ le. enough4)
              (append_inet4_lem l name sa fd ifindex only))
        | inr not4 ↦ elim (Bool-cases (byte_at 1 sa == unix "AF_INET6")) [
          | inl is6 ↦ rw not4 (
              rw is6 (
                of_size_lem (unix "SizeofSockaddrInet6") _ l _ name sa fd ifindex only
                  (enough6 (ground arith)) (append_inet6_lem l name sa fd ifindex only)))
          | inr not6 ↦ elim (Bool-cases (byte_at 1 sa == unix "AF_LINK")) [
            | inl is_link ↦ rw not4 (
                rw not6 (
                  rw is_link (
                    of_size_lem (unix "SizeofSockaddrDatalink") _ l _ name sa fd ifindex only
                      (enough (ground arith)) (append_link_lem l name sa fd ifindex only))))
            | inr other ↦ rw not4 (rw not6 (rw other (ap attrs (sym (append-nil l)))))
          ]
        ]
      ]
