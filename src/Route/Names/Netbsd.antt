-- ===== src/Route/Names/Netbsd.antt =====
-- The tables of route/bsdroute/names_netbsd.go. `unix` gives the constants of golang.org/x/sys/unix by
-- their names; those that begin with IN6_IFF are the file's own.
use cubic_go_playground.Prelude.{ℕ, List, String, [], ◌∷◌, codes}
use cubic_go_playground.Route.Flags.{Flag, flag}

-- The cases of the switch in `string`, each of which returns the name of its constant.
abbrev pub message_types : List String
message_types =
    "RTM_ADD" ∷ "RTM_DELETE" ∷ "RTM_CHANGE" ∷ "RTM_GET" ∷ "RTM_LOSING" ∷ "RTM_REDIRECT" ∷ "RTM_MISS"
    ∷ "RTM_LOCK" ∷ "RTM_OLDADD" ∷ "RTM_OLDDEL" ∷ "RTM_RESOLVE" ∷ "RTM_NEWADDR" ∷ "RTM_DELADDR"
    ∷ "RTM_OOIFINFO" ∷ "RTM_OIFINFO" ∷ "RTM_IFANNOUNCE" ∷ "RTM_IEEE80211" ∷ "RTM_SETGATE"
    ∷ "RTM_LLINFO_UPD" ∷ "RTM_IFINFO" ∷ "RTM_CHGADDR" ∷ []

abbrev pub route_flag_names : (String → ℕ) → List (Flag ℕ)
route_flag_names unix =
    flag (unix "RTF_UP") b'U'
    ∷ flag (unix "RTF_GATEWAY") b'G'
    ∷ flag (unix "RTF_HOST") b'H'
    ∷ flag (unix "RTF_REJECT") b'R'
    ∷ flag (unix "RTF_BLACKHOLE") b'B'
    ∷ flag (unix "RTF_DYNAMIC") b'D'
    ∷ flag (unix "RTF_MODIFIED") b'M'
    ∷ flag (unix "RTF_DONE") b'd'
    ∷ flag (unix "RTF_MASK") b'm'
    ∷ flag (unix "RTF_STATIC") b'S'
    ∷ flag (unix "RTF_PROTO1") b'1'
    ∷ flag (unix "RTF_PROTO2") b'2'
    ∷ flag (unix "RTF_ANNOUNCE") b'p'
    ∷ []

abbrev pub iface_flag_names : (String → ℕ) → List (Flag (List ℕ))
iface_flag_names unix =
    flag (unix "IFF_UP") (codes "UP")
    ∷ flag (unix "IFF_BROADCAST") (codes "BROADCAST")
    ∷ flag (unix "IFF_DEBUG") (codes "DEBUG")
    ∷ flag (unix "IFF_LOOPBACK") (codes "LOOPBACK")
    ∷ flag (unix "IFF_POINTOPOINT") (codes "POINTOPOINT")
    ∷ flag (unix "IFF_NOTRAILERS") (codes "NOTRAILERS")
    ∷ flag (unix "IFF_RUNNING") (codes "RUNNING")
    ∷ flag (unix "IFF_NOARP") (codes "NOARP")
    ∷ flag (unix "IFF_PROMISC") (codes "PROMISC")
    ∷ flag (unix "IFF_ALLMULTI") (codes "ALLMULTI")
    ∷ flag (unix "IFF_OACTIVE") (codes "OACTIVE")
    ∷ flag (unix "IFF_SIMPLEX") (codes "SIMPLEX")
    ∷ flag (unix "IFF_LINK0") (codes "LINK0")
    ∷ flag (unix "IFF_LINK1") (codes "LINK1")
    ∷ flag (unix "IFF_LINK2") (codes "LINK2")
    ∷ flag (unix "IFF_MULTICAST") (codes "MULTICAST")
    ∷ []

abbrev pub ifa_flags6_names : List (Flag (List ℕ))
ifa_flags6_names =
    flag 1 (codes "anycast")
    ∷ flag 2 (codes "tentative")
    ∷ flag 4 (codes "duplicated")
    ∷ flag 8 (codes "detached")
    ∷ flag 16 (codes "deprecated")
    ∷ flag 32 (codes "nodad")
    ∷ flag 64 (codes "autoconf")
    ∷ flag 128 (codes "temporary")
    ∷ []
