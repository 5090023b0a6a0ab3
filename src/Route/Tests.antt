-- ===== src/Route/Tests.antt =====
-- Runs of route/bsdroute at concrete inputs.
use cubic_go_playground.Prelude.{
  itoa, ℕ, zero, suc, ◌≤◌, ◌<◌, ◌≡◌, ◌⊎◌, inl, refl, true, List, [], ◌∷◌, ◌++◌, some, Bytes, codes,
  String, length, get_elem?, drop, replicate, if◌then◌else◌, arith,
}
use cubic_go_playground.Route.Align.{rta_align, RoundsUp, rta_align-RoundsUp}
use cubic_go_playground.Route.Flags.{
  flag, is_set, append_chars, append_names, append_text, marshal_text, string,
}
use cubic_go_playground.Route.Names.{
  darwin, message_types, route_flag_names, iface_flag_names, ifa_flags6_names,
}
use cubic_go_playground.Route.Shown.{has, shown}
use cubic_go_playground.Route.Texts.{string-marshal_text}
use cubic_go_playground.Route.Joined.{fields, parts_of}
use cubic_go_playground.Route.Types.{same, read_type}
use cubic_go_playground.Route.Addrs.{has_bit, parse_addrs, parse_addrs_loop}
use cubic_go_playground.Route.Laid.{IsSockaddr, laid_out, slots, parse_addrs-slots}
use cubic_go_playground.Route.InBounds.{parse_addrs-in_bounds}

abbrev pub value_of : List (String × ℕ) → String → ℕ
value_of [] c = 0
value_of (v ∷ vs) c = let rest = value_of vs c in if same (codes v.0) (codes c) then v.1 else rest

-- Some constants of <net/route.h> and <net/if.h> on darwin.
abbrev unix : String → ℕ
unix = value_of (
    ("RTM_ADD", 0x1)
    ∷ ("RTM_GET", 0x4)
    ∷ ("RTM_GET2", 0x14)
    ∷ ("RTF_UP", 0x1)
    ∷ ("RTF_GATEWAY", 0x2)
    ∷ ("RTF_HOST", 0x4)
    ∷ ("IFF_UP", 0x1)
    ∷ ("IFF_BROADCAST", 0x2)
    ∷ ("IFF_LOOPBACK", 0x8)
    ∷ ("IFF_MULTICAST", 0x8000)
    ∷ [])

types_shown :
    (string unix (message_types darwin) 0x14 ≡ codes "RTM_GET2")
    × (string unix (message_types darwin) 0xff ≡ codes "255")
unfolding string itoa
types_shown = (refl, refl)

flags_shown :
    (append_chars (route_flag_names darwin unix) 0x5 [] ≡ codes "UH")
    × (marshal_text b',' (iface_flag_names darwin unix) 0x8003 ≡ codes "UP,BROADCAST,MULTICAST")
    × (marshal_text b' ' (ifa_flags6_names darwin) 0x440 ≡ codes "autoconf secured")
    × (marshal_text b' ' (ifa_flags6_names darwin) 0 ≡ [])
unfolding append_chars marshal_text append_text append_names is_set
flags_shown = (refl, refl, refl, refl)

rta_align-RoundsUp_example :
    ((253 ≤ 252) × RoundsUp 4 253 (rta_align 4 253)) ⊎ ((252 < 253) × (rta_align 4 253 ≡ 0))
rta_align-RoundsUp_example = rta_align-RoundsUp 4 253 (inl refl) (omega arith)

string-marshal_text_example :
    (read_type unix (message_types darwin) (string unix (message_types darwin) 0x4) ≡ 0x4)
    × (has b'G' (append_chars (route_flag_names darwin unix) 0x5 [])
        ≡ is_set {N = ℕ} 0x5 (flag 0x2 b'G'))
    × (length (append_chars (route_flag_names darwin unix) 0x5 [])
        ≤ length (route_flag_names darwin unix))
    × (fields b',' (marshal_text b',' (iface_flag_names darwin unix) 0x5)
        ≡ parts_of (shown (iface_flag_names darwin unix) 0x5))
    × (fields b' ' (marshal_text b' ' (ifa_flags6_names darwin) 0x5)
        ≡ parts_of (shown (ifa_flags6_names darwin) 0x5))
string-marshal_text_example =
    string-marshal_text darwin unix 0x4 0x5 1 (flag 0x2 b'G') (omega arith) refl

-- An IPv4 address with the port 0, and an empty address.
abbrev inet4 : ℕ → Bytes
inet4 host = 16 ∷ 2 ∷ 0 ∷ 0 ∷ 192 ∷ 0 ∷ 2 ∷ host ∷ replicate 8 0

abbrev addresses : ℕ → Bytes
addresses zero = inet4 1
addresses (suc zero) = inet4 2
addresses _ = 0 ∷ []

addresses-IsSockaddr : (i : ℕ) → IsSockaddr 4 (addresses i)
addresses-IsSockaddr zero = (omega arith, omega arith, omega arith)
addresses-IsSockaddr (suc zero) = (omega arith, omega arith, omega arith)
addresses-IsSockaddr (suc (suc i)) = (omega arith, omega arith, omega arith)

buffer : laid_out 4 0b111 addresses 3 0 ≡ inet4 1 ++ inet4 2 ++ 0 ∷ 0 ∷ 0 ∷ 0 ∷ []
unfolding rta_align has_bit
buffer = refl

parse_addrs-slots_example :
    parse_addrs 4 16 3 (laid_out 4 0b111 addresses 3 0) 0b111 ≡ slots 4 0b111 addresses 16 3 0
parse_addrs-slots_example = parse_addrs-slots 4 0b111 addresses 16 (inl refl) addresses-IsSockaddr 3

-- A buffer that is cut off within the second address.
cut_off :
    get_elem? (parse_addrs 4 16 3 (inet4 1 ++ 16 ∷ []) 0b11) 0 ≡ some (some (inet4 1 ++ 16 ∷ []))
unfolding parse_addrs parse_addrs_loop has_bit rta_align
cut_off = refl

parse_addrs-in_bounds_example :
    (has_bit 0b11 0 ≡ true)
    × (16 ≤ length (inet4 1 ++ 16 ∷ []))
    × ((n : ℕ) × (inet4 1 ++ 16 ∷ [] ≡ drop n (inet4 1 ++ 16 ∷ [])))
parse_addrs-in_bounds_example =
    parse_addrs-in_bounds 4 16 0b11 (inet4 1 ++ 16 ∷ []) 3 0 (inet4 1 ++ 16 ∷ []) cut_off
