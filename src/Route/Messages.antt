-- ===== src/Route/Messages.antt =====
-- `parseAndLogMsgs` of route/cmd/route/main_bsd.go, with the headers of route/bsdroute
-- (msghdr_hdrlen.go on openbsd, msghdr_nohdrlen.go elsewhere). What it logs is a list of events; an
-- event that shows addresses holds the arguments of `appendAddrAttrs`, which reads and formats them.
-- The constants and the layouts of the messages are those of golang.org/x/sys/unix and are
-- parameters; a layout is only read of a message that is long enough for it. Words are little-endian.
use Prim.Native.Nat.{bit_and}
use cubic_go_playground.Prelude.{
  ℕ, zero, suc, ◌+◌, ◌*◌, Bool, true, false, not, ◌&&◌, ◌||◌, List, [], ◌∷◌, ◌++◌, Option, none,
  some, Bytes, String, length, take, drop, get_elem?, ltb, ◌==◌, if◌then◌else◌,
}
use cubic_go_playground.Route.Addrs.{parse_addrs}

pub data Header : Type 0 where
  no_hdrlen : Header
  with_hdrlen : Header

abbrev pub sizeof_msghdr : Header → ℕ
sizeof_msghdr no_hdrlen = 4
sizeof_msghdr with_hdrlen = 6

abbrev pub byte_at : ℕ → Bytes → ℕ
byte_at i b = elim (get_elem? b i) [ none ↦ 0 | some n ↦ n ]

unfoldable pub msglen : Bytes → ℕ
msglen b = byte_at 0 b + 256 * byte_at 1 b

abbrev pub version : Bytes → ℕ
version b = byte_at 2 b

abbrev pub msg_type : Bytes → ℕ
msg_type b = byte_at 3 b

abbrev pub hdrlen : Bytes → ℕ
hdrlen b = byte_at 4 b + 256 * byte_at 5 b

-- What a slice expression or a method gives.
pub data Slice : Type 0 where
  slice : Bytes → Slice
  refused : Slice
  out_of_range : Slice

abbrev pub from : ℕ → Bytes → Slice
from n b = if ltb (length b) n then out_of_range else slice (drop n b)

unfoldable pub addrs_buf : Header → Bytes → ℕ → Slice
addrs_buf no_hdrlen msg_buf hdrlen_of_type = from hdrlen_of_type msg_buf
addrs_buf with_hdrlen msg_buf hdrlen_of_type =
    if ltb (length msg_buf) (hdrlen msg_buf) then refused else from (hdrlen msg_buf) msg_buf

pub record Layout : Type 0 where
  pub size : ℕ
  pub flags : Bytes → ℕ
  pub index : Bytes → ℕ
  pub addrs : Bytes → ℕ
  pub pid : Bytes → ℕ
  pub seq : Bytes → ℕ

pub data Event : Type 0 where
  invalid_length : Bytes → Event
  unsupported_version : Bytes → Event
  invalid_size : Bytes → Event
  invalid_hdrlen : Bytes → Event
  rt_msghdr : (type flags index pid seq : ℕ) → List (Option Bytes) → Bool → Event
  if_msghdr : (type flags index : ℕ) → List (Option Bytes) → Event
  ifam_msghdr : (type index : ℕ) → List (Option Bytes) → Event
  unknown_type : Bytes → Event

-- After a message: go on with an interface index, return, or panic.
pub data Step : Type 0 where
  next : ℕ → List Event → Step
  return : List Event → Step
  panic : Step

pub data Outcome : Type 0 where
  logged : List Event → Outcome
  panicked : Outcome
  out_of_fuel : Outcome

-- What is logged of a message that has its addresses, and the interface index from there on.
unfoldable pub with_addrs : Header → Bytes → ℕ → ℕ → (Bytes → Event) → Step
with_addrs header msg_buf size ifindex event = elim (addrs_buf header msg_buf size) [
  | slice b ↦ next ifindex (event b ∷ [])
  | refused ↦ return (invalid_hdrlen msg_buf ∷ [])
  | out_of_range ↦ panic
]

abbrev pub has_flag : (String → ℕ) → ℕ → String → Bool
has_flag unix f name = not (bit_and f (unix name) == 0)

unfoldable pub skips_route : (String → ℕ) → Bool → ℕ → Bool
skips_route unix filter f =
    filter
    && (not (has_flag unix f "RTF_UP")
        || not (has_flag unix f "RTF_GATEWAY")
        || has_flag unix f "RTF_HOST")

unfoldable pub skips_iface : (String → ℕ) → Bool → ℕ → Bool
skips_iface unix filter f =
    filter
    && (not (has_flag unix f "IFF_UP")
        || has_flag unix f "IFF_LOOPBACK"
        || has_flag unix f "IFF_POINTOPOINT"
        || not (has_flag unix f "IFF_RUNNING"))

abbrev pub is_type : (String → ℕ) → Bytes → String → Bool
is_type unix m name = msg_type m == unix name

-- The types of the first and of the third case of the switch.
abbrev pub is_route : (String → ℕ) → Bytes → Bool
is_route unix m =
    is_type unix m "RTM_ADD"
    || is_type unix m "RTM_DELETE"
    || is_type unix m "RTM_CHANGE"
    || is_type unix m "RTM_GET"

abbrev pub is_ifaddr : (String → ℕ) → Bytes → Bool
is_ifaddr unix m = is_type unix m "RTM_NEWADDR" || is_type unix m "RTM_DELADDR"

module _ (align_to : ℕ) (unix : String → ℕ) (l : Layout) where
  abbrev pub slots_of : Bytes → Bytes → List (Option Bytes)
  slots_of m b = parse_addrs align_to (unix "SizeofSockaddrInet4") (unix "RTAX_MAX") b (l.addrs m)

  unfoldable pub route_event : Bool → Bytes → Bytes → Event
  route_event filter m b =
      rt_msghdr (msg_type m) (l.flags m) (l.index m) (l.pid m) (l.seq m) (slots_of m b) filter

  unfoldable pub iface_event : Bytes → Bytes → Event
  iface_event m b = if_msghdr (msg_type m) (l.flags m) (l.index m) (slots_of m b)

  unfoldable pub ifaddr_event : Bytes → Bytes → Event
  ifaddr_event m b = ifam_msghdr (msg_type m) (l.index m) (slots_of m b)

module _ (header : Header) (align_to : ℕ) (unix : String → ℕ) (rt ifm ifam : Layout)
    (filter : Bool) where
  unfoldable pub route_message : ℕ → Bytes → Step
  route_message ifindex m =
      if ltb (length m) rt.size
      then return (invalid_size m ∷ [])
      else if skips_route unix filter (rt.flags m)
      then next ifindex []
      else with_addrs header m rt.size ifindex (route_event align_to unix rt filter m)

  unfoldable pub iface_message : ℕ → Bytes → Step
  iface_message ifindex m =
      if ltb (length m) ifm.size
      then return (invalid_size m ∷ [])
      else if skips_iface unix filter (ifm.flags m)
      then next ifindex []
      else with_addrs header m ifm.size (ifm.index m) (iface_event align_to unix ifm m)

  unfoldable pub ifaddr_message : ℕ → Bytes → Step
  ifaddr_message ifindex m =
      if ltb (length m) ifam.size
      then return (invalid_size m ∷ [])
      else if filter && not (ifam.index m == ifindex)
      then next ifindex []
      else with_addrs header m ifam.size ifindex (ifaddr_event align_to unix ifam m)

  -- What is done with a message of the right length.
  unfoldable pub message : ℕ → Bytes → Step
  message ifindex m =
      if not (version m == unix "RTM_VERSION")
      then next ifindex (unsupported_version m ∷ [])
      else if is_route unix m
      then route_message ifindex m
      else if is_type unix m "RTM_IFINFO"
      then iface_message ifindex m
      else if is_ifaddr unix m
      then ifaddr_message ifindex m
      else next ifindex (unknown_type m ∷ [])

  -- The loop, with what is logged so far.
  unfoldable pub msgs_loop : ℕ → Bytes → ℕ → List Event → Outcome
  msgs_loop zero b ifindex log = out_of_fuel
  msgs_loop (suc k) b ifindex log = elim (ltb (length b) (sizeof_msghdr header)) [
    | true ↦ logged log
    | false ↦ elim (ltb (msglen b) (sizeof_msghdr header) || ltb (length b) (msglen b)) [
      | true ↦ logged (log ++ invalid_length b ∷ [])
      | false ↦ elim (message ifindex (take (msglen b) b)) [
        | next i events ↦ msgs_loop k (drop (msglen b) b) i (log ++ events)
        | return events ↦ logged (log ++ events)
        | panic ↦ panicked
      ]
    ]
  ]

  unfoldable pub parse_and_log_msgs : Bytes → Outcome
  parse_and_log_msgs b = msgs_loop (length b + 1) b 0 []
