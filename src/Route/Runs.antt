-- ===== src/Route/Runs.antt =====
-- Runs of the message loop on a buffer of openbsd, with layouts of one size.
use cubic_go_playground.Prelude.{
  arith, ℕ, ◌≡◌, refl, true, false, List, [], ◌∷◌, ◌++◌, none, Bytes, String,
}
use cubic_go_playground.Route.Align.{rta_align}
use cubic_go_playground.Route.Addrs.{has_bit, parse_addrs, parse_addrs_loop}
use cubic_go_playground.Route.Messages.{
  with_hdrlen, no_hdrlen, Layout, Event, if_msghdr, ifam_msghdr, rt_msghdr, logged, msglen,
  addrs_buf, with_addrs, skips_route, skips_iface, route_event, iface_event, ifaddr_event,
  route_message, iface_message, ifaddr_message, message, msgs_loop, parse_and_log_msgs, byte_at,
}
use cubic_go_playground.Route.Logged.{parse_and_log_msgs-logged}
use cubic_go_playground.Route.Framed.{concat, AllMessages, handle_all, parse_and_log_msgs-concat}
use cubic_go_playground.Route.Filtered.{Admissible, parse_and_log_msgs-Admissible}
use cubic_go_playground.Route.Tests.{value_of}

abbrev unix : String → ℕ
unix = value_of (
    ("RTM_VERSION", 5)
    ∷ ("RTM_ADD", 0x1)
    ∷ ("RTM_NEWADDR", 0xc)
    ∷ ("RTM_IFINFO", 0xe)
    ∷ ("RTF_UP", 0x1)
    ∷ ("RTF_GATEWAY", 0x2)
    ∷ ("RTF_HOST", 0x4)
    ∷ ("IFF_UP", 0x1)
    ∷ ("IFF_LOOPBACK", 0x8)
    ∷ ("IFF_POINTOPOINT", 0x10)
    ∷ ("IFF_RUNNING", 0x40)
    ∷ ("SizeofSockaddrInet4", 16)
    ∷ ("RTAX_MAX", 1)
    ∷ [])

abbrev layout : Layout
layout = record {
  size = 12;
  flags = λ m. byte_at 6 m;
  index = λ m. byte_at 8 m;
  addrs = λ m. byte_at 10 m;
  pid = λ _. 0;
  seq = λ _. 0;
}

abbrev of_type : ℕ → ℕ → ℕ → Bytes
of_type type flags index = 12 ∷ 0 ∷ 5 ∷ type ∷ 12 ∷ 0 ∷ flags ∷ 0 ∷ index ∷ 0 ∷ 0 ∷ 0 ∷ []

-- Two interfaces, each with an address, the second one a loopback interface.
abbrev messages : List Bytes
messages =
    of_type 0xe 0x41 1
    ∷ of_type 0xc 0 1
    ∷ of_type 0xe 0x49 2
    ∷ of_type 0xc 0 2
    ∷ of_type 0x1 0x3 1
    ∷ []

abbrev events : List Event
events =
    if_msghdr 0xe 0x41 1 (none ∷ [])
    ∷ ifam_msghdr 0xc 1 (none ∷ [])
    ∷ rt_msghdr 0x1 0x3 1 0 0 (none ∷ []) true
    ∷ []

filtered :
    parse_and_log_msgs with_hdrlen 8 unix layout layout layout true (concat messages)
    ≡ logged events
unfolding parse_and_log_msgs msgs_loop message route_message iface_message ifaddr_message
    skips_route skips_iface route_event iface_event ifaddr_event with_addrs addrs_buf msglen
    parse_addrs parse_addrs_loop has_bit rta_align
filtered = refl

parse_and_log_msgs-logged_example :
    (es : List Event) × (parse_and_log_msgs no_hdrlen 4 unix layout layout layout false
        (concat messages ++ 9 ∷ 9 ∷ 9 ∷ 9 ∷ [])
      ≡ logged es)
parse_and_log_msgs-logged_example =
    parse_and_log_msgs-logged no_hdrlen 4 unix layout layout layout false
      (concat messages ++ 9 ∷ 9 ∷ 9 ∷ 9 ∷ [])

messages-AllMessages : AllMessages with_hdrlen 8 unix layout layout layout true messages
unfolding msglen
messages-AllMessages = ground arith

parse_and_log_msgs-concat_example :
    parse_and_log_msgs with_hdrlen 8 unix layout layout layout true (concat messages)
    ≡ logged (handle_all with_hdrlen 8 unix layout layout layout true 0 messages [])
parse_and_log_msgs-concat_example =
    parse_and_log_msgs-concat with_hdrlen 8 unix layout layout layout true messages
      messages-AllMessages

parse_and_log_msgs-Admissible_example : Admissible unix 0 events
parse_and_log_msgs-Admissible_example =
    parse_and_log_msgs-Admissible unix with_hdrlen 8 layout layout layout (concat messages) events
      filtered
