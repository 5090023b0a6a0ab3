-- ===== src/Route/Start.antt =====
-- `main` and `monitorRoutingSocket` of route/cmd/route/main_bsd.go, over what the system answers. The
-- routing socket is read as often as there are answers; each read gives the bytes that it left in
-- the buffer, or an error. The arguments and the set-up of the logger are left out.
use cubic_go_playground.Prelude.{ℕ, Bool, false, not, List, [], ◌∷◌, ◌++◌, Bytes, String}
use cubic_go_playground.Prelude.Result.{Result, err, ok}
use cubic_go_playground.Route.Messages.{Header, Layout, Outcome, parse_and_log_msgs}
use cubic_go_playground.Route.Sockets.{Failure, Kind, Kernel, socket_of, open_routing_socket}
use cubic_go_playground.Route.Sysctl.{
  Answers, Fetched, fetched, failed, out_of_range, out_of_rounds, sysctl_get_bytes,
}

pub data Source : Type 0 where
  interface : Source
  route : Source
  monitor : Source

pub data Log : Type 0 where
  no_routing_socket : Failure → Log
  no_ioctl_socket : Failure → Log
  no_interface_dump : ℕ → Log
  no_route_dump : ℕ → Log
  no_message : ℕ → Log
  messages : Source → Outcome → Log

-- The program exits with 1, or it is still reading, or a buffer
-- from sysctl is out of range, or sysctl is called again and again.
pub data End : Type 0 where
  exits : List Log → End
  reads_on : List Log → End
  panics : List Log → End
  never_reads : List Log → End

-- The constants and layouts of the system, what is the same on one system.
pub record Platform : Type 0 where
  pub header : Header
  pub kind : Kind
  pub align_to : ℕ
  pub unix : String → ℕ
  pub rt : Layout
  pub ifm : Layout
  pub ifam : Layout

-- What the system answers: to the calls for sockets, to sysctl for either dump, and to the reads.
pub record Machine : Type 0 where
  pub kernel : Kernel
  pub grow : ℕ → ℕ → ℕ
  pub iflist : Answers
  pub dump : Answers
  pub reads : List (Result ℕ Bytes)

module _ (os : Platform) where
  unfoldable pub handled : Source → Bool → Bytes → Log
  handled source filter b =
      messages source
        (parse_and_log_msgs os.header os.align_to os.unix os.rt os.ifm os.ifam filter b)

  unfoldable pub monitor_routing_socket : List (Result ℕ Bytes) → List Log
  monitor_routing_socket [] = []
  monitor_routing_socket (err e ∷ rest) = no_message e ∷ monitor_routing_socket rest
  monitor_routing_socket (ok b ∷ rest) = handled monitor false b ∷ monitor_routing_socket rest

  module _ (m : Machine) (rounds : ℕ) (dump_all : Bool) where
    unfoldable pub on_route_dump : List Log → Fetched → End
    on_route_dump log (failed e) = exits (log ++ no_route_dump e ∷ [])
    on_route_dump log out_of_range = panics log
    on_route_dump log out_of_rounds = never_reads log
    on_route_dump log (fetched b) =
        reads_on (log ++ handled route (not dump_all) b ∷ monitor_routing_socket m.reads)

    unfoldable pub on_interface_dump : Fetched → End
    on_interface_dump (failed e) = exits (no_interface_dump e ∷ [])
    on_interface_dump out_of_range = panics []
    on_interface_dump out_of_rounds = never_reads []
    on_interface_dump (fetched b) =
        on_route_dump (handled interface (not dump_all) b ∷ [])
          (sysctl_get_bytes (os.unix "ENOMEM") m.grow m.dump rounds)

    unfoldable pub on_ioctl_socket : Result Failure ℕ → End
    on_ioctl_socket (err e) = exits (no_ioctl_socket e ∷ [])
    on_ioctl_socket (ok fd) =
        on_interface_dump (sysctl_get_bytes (os.unix "ENOMEM") m.grow m.iflist rounds)

    unfoldable pub on_routing_socket : Result Failure ℕ → End
    on_routing_socket (err e) = exits (no_routing_socket e ∷ [])
    on_routing_socket (ok fd) =
        on_ioctl_socket
          (socket_of os.kind os.unix m.kernel (os.unix "AF_INET6") (os.unix "SOCK_DGRAM") 0).result

    unfoldable pub main : End
    main = on_routing_socket (open_routing_socket os.kind os.unix m.kernel).result
