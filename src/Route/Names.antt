-- ===== src/Route/Names.antt =====
-- The five systems that route/bsdroute is built for, and the tables of each.
mod Darwin
mod Dragonfly
mod Freebsd
mod Netbsd
mod Openbsd
use cubic_go_playground.Prelude.{ℕ, List, Bytes, String}
use cubic_go_playground.Route.Flags.{Flag}

pub data Os : Type 0 where
  darwin : Os
  dragonfly : Os
  freebsd : Os
  netbsd : Os
  openbsd : Os

abbrev pub message_types : Os → List String
message_types darwin = Darwin.message_types
message_types dragonfly = Dragonfly.message_types
message_types freebsd = Freebsd.message_types
message_types netbsd = Netbsd.message_types
message_types openbsd = Openbsd.message_types

abbrev pub route_flag_names : Os → (String → ℕ) → List (Flag ℕ)
route_flag_names darwin = Darwin.route_flag_names
route_flag_names dragonfly = Dragonfly.route_flag_names
route_flag_names freebsd = Freebsd.route_flag_names
route_flag_names netbsd = Netbsd.route_flag_names
route_flag_names openbsd = Openbsd.route_flag_names

abbrev pub iface_flag_names : Os → (String → ℕ) → List (Flag Bytes)
iface_flag_names darwin = Darwin.iface_flag_names
iface_flag_names dragonfly = Dragonfly.iface_flag_names
iface_flag_names freebsd = Freebsd.iface_flag_names
iface_flag_names netbsd = Netbsd.iface_flag_names
iface_flag_names openbsd = Openbsd.iface_flag_names

abbrev pub ifa_flags6_names : Os → List (Flag Bytes)
ifa_flags6_names darwin = Darwin.ifa_flags6_names
ifa_flags6_names dragonfly = Dragonfly.ifa_flags6_names
ifa_flags6_names freebsd = Freebsd.ifa_flags6_names
ifa_flags6_names netbsd = Netbsd.ifa_flags6_names
ifa_flags6_names openbsd = Openbsd.ifa_flags6_names
