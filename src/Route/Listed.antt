-- ===== src/Route/Listed.antt =====
-- The attributes that route/cmd/route/main_bsd.go shows of what `ParseAddrs` gives.
use cubic_go_playground.Prelude.{
  ℕ, ◌≤◌, ◌≡◌, ap, ◌∙◌, Bool, false, List, ◌++◌, append_assoc, Option, some, Bytes, String, length,
  get_elem?,
}
use cubic_go_playground.Route.Addrs.{parse_addrs}
use cubic_go_playground.Route.InBounds.{parse_addrs-in_bounds}
use cubic_go_playground.Route.Attrs.{
  Name, dst, gateway, netmask, genmask, ifp, ifa, Attr, Attrs, attrs, Fields, Calls, then_attrs,
  append_addr_attr, slot, append_addr_attrs,
}
use cubic_go_playground.Route.Meant.{Whole, shows, shows_all}
use cubic_go_playground.Route.Shows.{append_addr_attr-shows}

-- One step, and those behind it.
then_attrs-attrs :
    (l out rest : List Attr) (r : Attrs) (next : List Attr → Attrs)
    → r ≡ attrs (l ++ out)
    → next (l ++ out) ≡ attrs ((l ++ out) ++ rest)
    → then_attrs r next ≡ attrs (l ++ (out ++ rest))
then_attrs-attrs l out rest r next first others =
    ap (λ r. then_attrs r next) first ∙ others ∙ ap attrs (append_assoc l out rest)

module _ (unix : String → ℕ) (fields : Fields) (calls : Calls) (fd ifindex : ℕ) (only : Bool) where
  append_addr_attrs-shows_all :
      (l : List Attr) (addrs : List (Option Bytes))
      → ((rtax : String) (sa : Bytes)
          → get_elem? addrs (unix rtax) ≡ some (some sa)
          → (unix "SizeofSockaddrInet4" ≤ length sa) × Whole unix fields calls sa)
      → append_addr_attrs unix fields calls l addrs fd ifindex only
        ≡ attrs (l ++ shows_all unix fields calls only addrs fd ifindex)
  unfolding append_addr_attrs
  append_addr_attrs-shows_all l addrs h =
      let out : Bool → Name → String → List Attr =
        λ b name rtax. shows unix fields calls b name (get_elem? addrs (unix rtax)) fd ifindex in
      let step : (l : List Attr) (b : Bool) (name : Name) (rtax : String)
          → append_addr_attr unix fields calls l name (slot unix addrs rtax) fd ifindex b
            ≡ attrs (l ++ out b name rtax) =
        λ l b name rtax.
          append_addr_attr-shows unix fields calls l name (get_elem? addrs (unix rtax)) fd ifindex b
            (h rtax) in
      let l1 : List Attr = l ++ out only dst "RTAX_DST" in
      let l2 : List Attr = l1 ++ out false gateway "RTAX_GATEWAY" in
      let l3 : List Attr = l2 ++ out only netmask "RTAX_NETMASK" in
      let l4 : List Attr = l3 ++ out false genmask "RTAX_GENMASK" in
      let l5 : List Attr = l4 ++ out false ifp "RTAX_IFP" in
      then_attrs-attrs l _ _ _ _ (step l only dst "RTAX_DST") (
        then_attrs-attrs l1 _ _ _ _ (step l1 false gateway "RTAX_GATEWAY") (
          then_attrs-attrs l2 _ _ _ _ (step l2 only netmask "RTAX_NETMASK") (
            then_attrs-attrs l3 _ _ _ _ (step l3 false genmask "RTAX_GENMASK") (
              then_attrs-attrs l4 _ _ _ _ (step l4 false ifp "RTAX_IFP")
                (step l5 false ifa "RTAX_IFA")))))

  -- On what `ParseAddrs` gives for any buffer, if each address in it that says it is a whole IPv6 or
  -- link address is whole, nothing behind the buffer is read, and exactly what follows is added to
  -- the attributes that are given: those of the destination, the gateway, the two masks, the
  -- interface and its address, in this order, each made from the slot of its number and under its
  -- name. Of an absent address, of one of another family and of one that says it is shorter than the
  -- struct of its family there is none; an IPv6 address has its zone, and a link address its index
  -- and its name, or no attribute if the name is cut off. Behind an IPv6 address of the interface
  -- stand the flags, if the interface has a name and the system tells them. With the filter on, an
  -- IP address of the destination or of the mask is only shown if it is unspecified.
  pub append_addr_attrs-parse_addrs :
      (align_to addrs : ℕ) (b : Bytes) (l : List Attr)
      → ((j : ℕ) (sa : Bytes)
          → get_elem?
              (parse_addrs align_to (unix "SizeofSockaddrInet4") (unix "RTAX_MAX") b addrs)
              j
            ≡ some (some sa)
          → Whole unix fields calls sa)
      → append_addr_attrs unix fields calls l
          (parse_addrs align_to (unix "SizeofSockaddrInet4") (unix "RTAX_MAX") b addrs)
          fd
          ifindex
          only
        ≡ attrs (
            l
            ++ shows_all unix fields calls only
                (parse_addrs align_to (unix "SizeofSockaddrInet4") (unix "RTAX_MAX") b addrs)
                fd
                ifindex)
  append_addr_attrs-parse_addrs align_to addrs b l whole =
      let size : ℕ = unix "SizeofSockaddrInet4" in
      let slots : List (Option Bytes) = parse_addrs align_to size (unix "RTAX_MAX") b addrs in
      append_addr_attrs-shows_all l slots (λ rtax sa h. (
        (parse_addrs-in_bounds align_to size addrs b (unix "RTAX_MAX") (unix rtax) sa h).1,
        whole (unix rtax) sa h,
      ))
