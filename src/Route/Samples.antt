-- ===== src/Route/Samples.antt =====
-- Runs of `appendAddrAttrs`, `SysctlGetBytes` and `Socket`, and their theorems at concrete inputs.
use cubic_go_playground.Prelude.{
  ℕ, zero, suc, ◌+◌, ◌*◌, ◌≤◌, ◌≡◌, refl, subst, take, true, false, List, [], ◌∷◌, ◌++◌, Option,
  none, some, Bytes, String, codes, replicate, get_elem?, drop, length, ltb, ◌==◌, if◌then◌else◌,
  arith,
}
use cubic_go_playground.Prelude.Result.{err, ok}
use cubic_go_playground.Ip.Endpoint.{same_zone}
use cubic_go_playground.Ip.Netip.{addr_from4}
use cubic_go_playground.Route.Align.{rta_align}
use cubic_go_playground.Route.Addrs.{has_bit, parse_addrs, parse_addrs_loop}
use cubic_go_playground.Route.Messages.{byte_at}
use cubic_go_playground.Route.Attrs.{
  gateway, ifp, addr, group, attrs, past_end, Fields, Calls, append_inet4, append_link,
  append_addr_attr, append_addr_attrs,
}
use cubic_go_playground.Route.Meant.{Whole, shows_all}
use cubic_go_playground.Route.Listed.{append_addr_attrs-parse_addrs}
use cubic_go_playground.Route.Sysctl.{
  Answers, fetched, out_of_range, second_call, sysctl_loop, sysctl_get_bytes, Grows,
  sysctl_get_bytes-fetched,
}
use cubic_go_playground.Route.Sockets.{
  locks_fork, unlocks_fork, opens, closes_on_exec, sets_nonblock, closes, without_flags, Kernel,
  after_open, on_nonblock, set_nonblock, socket_without_flags, socket_of, open_routing_socket,
}
use cubic_go_playground.Route.Opened.{Tidy, Prepares, socket_of-Tidy}
use cubic_go_playground.Route.Tests.{value_of}

-- Some constants of darwin.
abbrev unix : String → ℕ
unix = value_of (
    ("AF_INET", 2)
    ∷ ("AF_INET6", 30)
    ∷ ("AF_LINK", 18)
    ∷ ("AF_ROUTE", 17)
    ∷ ("AF_UNSPEC", 0)
    ∷ ("SOCK_RAW", 3)
    ∷ ("SizeofSockaddrInet4", 16)
    ∷ ("SizeofSockaddrInet6", 28)
    ∷ ("SizeofSockaddrDatalink", 20)
    ∷ ("IFNAMSIZ", 16)
    ∷ ("RTAX_DST", 0)
    ∷ ("RTAX_GATEWAY", 1)
    ∷ ("RTAX_NETMASK", 2)
    ∷ ("RTAX_GENMASK", 3)
    ∷ ("RTAX_IFP", 4)
    ∷ ("RTAX_IFA", 5)
    ∷ ("RTAX_MAX", 8)
    ∷ [])

abbrev fields : Fields
fields = record {
  inet4_addr =
      λ sa. byte_at 7 sa + 256 * (byte_at 6 sa + 256 * (byte_at 5 sa + 256 * byte_at 4 sa));
  inet6_addr = λ sa. byte_at 23 sa;
  inet6_scope_id = λ sa. byte_at 24 sa;
  link_index = λ sa. byte_at 2 sa;
  link_nlen = λ sa. byte_at 5 sa;
  link_data = λ sa. take 12 (drop 8 sa);
}

abbrev calls : Calls
calls = record {
  zone_name = λ n. if n == 0 then [] else codes "en0";
  number_of = λ name. length name;
  ioctl = λ fd req ifr. err 22;
}

abbrev inet4 : ℕ → Bytes
inet4 n = 16 ∷ 2 ∷ 0 ∷ 0 ∷ n ∷ 0 ∷ 0 ∷ n ∷ replicate 8 0

-- The route 10.0.0.10 by the gateway 1.0.0.1 and en0. With the filter on, its destination is not shown.
abbrev en0 : Bytes
en0 = 20 ∷ 18 ∷ 4 ∷ 0 ∷ 6 ∷ 3 ∷ 0 ∷ 0 ∷ codes "en0" ++ replicate 9 0

abbrev message : Bytes
message = inet4 10 ++ (inet4 1 ++ en0)

abbrev slots : List (Option Bytes)
slots = parse_addrs 4 (unix "SizeofSockaddrInet4") (unix "RTAX_MAX") message 0b10011

append_addr_attrs_filtered :
    append_addr_attrs unix fields calls [] slots 3 4 true
    ≡ attrs (addr gateway (addr_from4 0x1000001) ∷ group ifp 4 (codes "en0") ∷ [])
unfolding append_addr_attrs append_addr_attr append_inet4 append_link parse_addrs parse_addrs_loop
    has_bit rta_align same_zone
append_addr_attrs_filtered = refl

-- An IPv6 address of which 16 bytes are left in the buffer.
append_addr_attrs_cut_off :
    append_addr_attrs unix fields calls []
      (parse_addrs 4 (unix "SizeofSockaddrInet4") (unix "RTAX_MAX") (28 ∷ 30 ∷ replicate 14 0) 0b1)
      3
      4
      false
    ≡ past_end
unfolding append_addr_attrs append_addr_attr parse_addrs parse_addrs_loop has_bit rta_align
append_addr_attrs_cut_off = refl

abbrev WholeAt : Option (Option Bytes) → Type 0
WholeAt (some (some sa)) = Whole unix fields calls sa
WholeAt _ = Unit

none-WholeAt : (n j : ℕ) → WholeAt (get_elem? (replicate {A = Option Bytes} n none) j)
none-WholeAt zero j = tt
none-WholeAt (suc n) zero = tt
none-WholeAt (suc n) (suc j) = none-WholeAt n j

each-WholeAt : (j : ℕ) → WholeAt (get_elem? slots j)
unfolding parse_addrs parse_addrs_loop has_bit rta_align
each-WholeAt zero = (λ e. absurd (omega arith), λ e. absurd (omega arith))
each-WholeAt (suc zero) = (λ e. absurd (omega arith), λ e. absurd (omega arith))
each-WholeAt (suc (suc zero)) = tt
each-WholeAt (suc (suc (suc zero))) = tt
each-WholeAt (suc (suc (suc (suc zero)))) = (λ e. absurd (omega arith), λ e le. omega arith)
each-WholeAt (suc (suc (suc (suc (suc j))))) = none-WholeAt 3 j

slots-Whole : (j : ℕ) (sa : Bytes) → get_elem? slots j ≡ some (some sa) → Whole unix fields calls sa
slots-Whole j sa h = subst WholeAt h (each-WholeAt j)

append_addr_attrs-parse_addrs_example :
    append_addr_attrs unix fields calls [] slots 3 4 true
    ≡ attrs (shows_all unix fields calls true slots 3 4)
append_addr_attrs-parse_addrs_example =
    append_addr_attrs-parse_addrs unix fields calls 3 4 true 4 0b10011 message [] slots-Whole

-- A table that grows once between the call for its size and the one that reads it.
abbrev told : ℕ → ℕ
told zero = 2
told _ = 3

abbrev content : ℕ → Bytes
content _ = 1 ∷ 2 ∷ 3 ∷ []

abbrev sys : Answers
sys = record {
  size = λ round. ok (told round);
  fill = λ round cap. if ltb cap (length (content round)) then err 12 else ok (content round);
  size_again = λ round. ok (told round);
}

abbrev grow : ℕ → ℕ → ℕ
grow cap n = if ltb cap n then n else cap

grow-Grows : Grows grow
grow-Grows cap n = ground arith

sysctl_get_bytes_twice : sysctl_get_bytes 12 grow sys 2 ≡ fetched (1 ∷ 2 ∷ 3 ∷ [])
unfolding sysctl_get_bytes sysctl_loop second_call
sysctl_get_bytes_twice = refl

-- A table of which there is nothing at the first call, and something at the second one.
sysctl_get_bytes_crash :
    sysctl_get_bytes 12 grow (record sys { size = λ round. ok 0; size_again = λ round. ok 5 }) 1
    ≡ out_of_range
unfolding sysctl_get_bytes sysctl_loop second_call
sysctl_get_bytes_crash = refl

sysctl_get_bytes-fetched_example :
    (i : ℕ) × (i ≤ 1) × (sysctl_get_bytes 12 grow sys 2 ≡ fetched (content i))
sysctl_get_bytes-fetched_example =
    sysctl_get_bytes-fetched 12 grow sys told content 1 1 grow-Grows (λ round. (refl, λ cap. refl))
      (omega arith) (omega arith) (omega arith)

-- A system that gives the descriptor 3, and refuses to make it non-blocking.
abbrev kernel : Kernel
kernel = record { new_socket = λ domain type proto. ok 3; nonblock = λ fd. some 25 }

open_routing_socket_refused :
    (open_routing_socket without_flags unix kernel).steps
    ≡ locks_fork
      ∷ opens 17 3 0 (ok 3)
      ∷ closes_on_exec 3
      ∷ unlocks_fork
      ∷ sets_nonblock 3
      ∷ closes 3
      ∷ []
unfolding open_routing_socket socket_of socket_without_flags after_open set_nonblock on_nonblock
open_routing_socket_refused = refl

socket_of-Tidy_example :
    Tidy (socket_of without_flags unix kernel 17 3 0)
    × Prepares without_flags kernel (socket_of without_flags unix kernel 17 3 0)
socket_of-Tidy_example = socket_of-Tidy without_flags unix kernel 17 3 0
