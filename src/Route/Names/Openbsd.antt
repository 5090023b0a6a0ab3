-- ===== src/Route/Names/Openbsd.antt =====
-- The tables of route/bsdroute/names_openbsd.go. `unix` gives the constants of golang.org/x/sys/unix by
-- their names; those that begin with IN6_IFF are the file's own.
use cubic_go_playground.Prelude.{ℕ, List, String, [], ◌∷◌, codes}
use cubic_go_playground.Route.Flags.{Flag, flag}

-- The cases of the switch in `string`, each of which returns the name of its constant.
abbrev pub message_types : List String
message_types =
    "RTM_ADD" ∷ "RTM_DELETE" ∷ "RTM_CHANGE" ∷ "RTM_GET" ∷ "RTM_LOSING" ∷ "RTM_REDIRECT" ∷ "RTM_MISS"
    ∷ "RTM_RESOLVE" ∷ "RTM_NEWADDR" ∷ "RTM_DELADDR" ∷ "RTM_IFINFO" ∷ "RTM_IFANNOUNCE" ∷ "RTM_DESYNC"
    ∷ "RTM_INVALIDATE" ∷ "RTM_BFD" ∷ "RTM_PROPOSAL" ∷ "RTM_CHGADDRATTR" ∷ "RTM_80211INFO"
    ∷ "RTM_SOURCE" ∷ []

abbrev pub route_flag_names : (String → ℕ) → List (Flag ℕ)
route_flag_names unix =
    flag (unix "RTF_UP") b'U'
    ∷ flag (unix "RTF_GATEWAY") b'G'
    ∷ flag (unix "RTF_HOST") b'H'
    ∷ flag (unix "RTF_REJECT") b'R'
    ∷ flag (unix "RTF_DYNAMIC") b'D'
    ∷ flag (unix "RTF_MODIFIED") b'M'
    ∷ flag (unix "RTF_CLONING") b'C'
    ∷ flag (unix "RTF_MULTICAST") b'm'
    ∷ flag (unix "RTF_LLINFO") b'L'
    ∷ flag (unix "RTF_STATIC") b'S'
    ∷ flag (unix "RTF_BLACKHOLE") b'B'
    ∷ flag (unix "RTF_PROTO3") b'3'
    ∷ flag (unix "RTF_PROTO2") b'2'
    ∷ flag (unix "RTF_PROTO1") b'1'
    ∷ flag (unix "RTF_CLONED") b'c'
    ∷ flag (unix "RTF_CACHED") b'h'
    ∷ flag (unix "RTF_MPATH") b'P'
    ∷ flag (unix "RTF_MPLS") b'T'
    ∷ flag (unix "RTF_LOCAL") b'l'
    ∷ flag (unix "RTF_BFD") b'F'
    ∷ flag (unix "RTF_BROADCAST") b'b'
    ∷ flag (unix "RTF_CONNECTED") b'n'
    ∷ []

abbrev pub iface_flag_names : (String → ℕ) → List (Flag (List ℕ))
iface_flag_names unix =
    flag (unix "IFF_UP") (codes "UP")
    ∷ flag (unix "IFF_BROADCAST") (codes "BROADCAST")
    ∷ flag (unix "IFF_DEBUG") (codes "DEBUG")
    ∷ flag (unix "IFF_LOOPBACK") (codes "LOOPBACK")
    ∷ flag (unix "IFF_POINTOPOINT") (codes "POINTOPOINT")
    ∷ flag (unix "IFF_STATICARP") (codes "STATICARP")
    ∷ flag (unix "IFF_RUNNING") (codes "RUNNING")
    ∷ flag (unix "IFF_NOARP") (codes "NOARP")
    ∷ flag (unix "IFF_PROMISC") (codes "PROMISC")
    ∷ flag (unix "IFF_ALLMULTI") (codes "ALLMULTI")
    ∷ flag (unix "IFF_OACTIVE") (codes "OACTIVE")
    ∷ flag (unix "IFF_SIMPLEX") (codes "SIMPLEX")
    ∷ flag (unix "IFF_LINK0") (codes "LINK0")
    ∷ flag (unix "IFF_LINK1") (codes "LINK1")
    ∷ flag (unix "IFF_LINK2") (codes "LINK2")
    ∷ flag (unix "IFF_MULTICAST") (codes "MULTICAST")
    ∷ flag (unix "IFF_CANTCHANGE") (codes "CANTCHANGE")
    ∷ []

abbrev pub ifa_flags6_names : List (Flag (List ℕ))
ifa_flags6_names =
    flag 1 (codes "anycast")
    ∷ flag 2 (codes "tentative")
    ∷ flag 4 (codes "duplicated")
    ∷ flag 8 (codes "detached")
    ∷ flag 16 (codes "deprecated")
    ∷ flag 64 (codes "autoconf")
    ∷ flag 128 (codes "temporary")
    ∷ []
