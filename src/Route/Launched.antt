-- ===== src/Route/Launched.antt =====
-- A run of route/cmd/route/main_bsd.go, and the theorem on it at this input.
use cubic_go_playground.Prelude.{
  ℕ, ◌≡◌, refl, false, not, List, [], ◌∷◌, none, length, ltb, if◌then◌else◌, arith,
}
use cubic_go_playground.Prelude.Result.{err, ok}
use cubic_go_playground.Route.Messages.{
  no_hdrlen, Layout, logged, invalid_length, msglen, msgs_loop, parse_and_log_msgs,
}
use cubic_go_playground.Route.Sockets.{
  without_flags, on_nonblock, set_nonblock, socket_without_flags, socket_of, open_routing_socket,
}
use cubic_go_playground.Route.Sysctl.{Answers, second_call, sysctl_loop, sysctl_get_bytes}
use cubic_go_playground.Route.Start.{
  interface, route, monitor, Log, no_message, messages, reads_on, Platform, Machine, handled,
  monitor_routing_socket, on_route_dump, on_interface_dump, on_ioctl_socket, on_routing_socket,
  main,
}
use cubic_go_playground.Route.Started.{Reads, Answered, main-reads_on}
use cubic_go_playground.Route.Tests.{value_of}

abbrev layout : Layout
layout = record {
  size = 12;
  flags = λ m. 0;
  index = λ m. 0;
  addrs = λ m. 0;
  pid = λ m. 0;
  seq = λ m. 0;
}

abbrev platform : Platform
platform = record {
  header = no_hdrlen;
  kind = without_flags;
  align_to = 4;
  unix = value_of (
      ("ENOMEM", 12)
      ∷ ("AF_ROUTE", 17)
      ∷ ("SOCK_RAW", 3)
      ∷ ("AF_INET6", 30)
      ∷ ("SOCK_DGRAM", 2)
      ∷ []);
  rt = layout;
  ifm = layout;
  ifam = layout;
}

-- Both dumps are empty, and told to be longer.
abbrev empty : Answers
empty = record {
  size = λ round. ok 8;
  fill = λ round cap. if ltb cap (length {A = ℕ} []) then err 12 else ok [];
  size_again = λ round. ok 8;
}

-- A read that fails, and one that gives too little for a message.
abbrev machine : Machine
machine = record {
  kernel = record { new_socket = λ domain type proto. ok 3; nonblock = λ fd. none };
  grow = λ cap n. if ltb cap n then n else cap;
  iflist = empty;
  dump = empty;
  reads = err 4 ∷ ok (9 ∷ 0 ∷ 5 ∷ 1 ∷ []) ∷ [];
}

main_reading :
    main platform machine 1 false
    ≡ reads_on (
        messages interface (logged [])
        ∷ messages route (logged [])
        ∷ no_message 4
        ∷ messages monitor (logged (invalid_length (9 ∷ 0 ∷ 5 ∷ 1 ∷ []) ∷ []))
        ∷ [])
unfolding main on_routing_socket on_ioctl_socket on_interface_dump on_route_dump
    monitor_routing_socket handled sysctl_get_bytes sysctl_loop second_call open_routing_socket
    socket_of socket_without_flags set_nonblock on_nonblock parse_and_log_msgs msgs_loop msglen
main_reading = refl

main-reads_on_example :
    (i i' : ℕ) × (l l' : Log) × (log : List Log) × (main platform machine 1 false
      ≡ reads_on (l ∷ l' ∷ log))
    × Reads platform interface (not false) [] l
    × Reads platform route (not false) [] l'
    × Answered platform machine.reads log
unfolding open_routing_socket socket_of socket_without_flags set_nonblock on_nonblock
main-reads_on_example =
    main-reads_on platform machine 0 false 3 3 (λ round. 8) (λ round. 8) (λ round. []) (λ round. [])
      0 0 refl refl (λ cap n. ground arith) (λ round. (refl, λ cap. refl))
      (λ round. (refl, λ cap. refl)) (omega arith) (omega arith) (omega arith) (omega arith)
      (omega arith) (omega arith)
