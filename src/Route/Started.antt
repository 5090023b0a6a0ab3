-- ===== src/Route/Started.antt =====
-- How a run of route/cmd/route/main_bsd.go ends, and what it logs.
use cubic_go_playground.Prelude.{
  ℕ, suc, ◌≤◌, ◌<◌, ◌≡◌, refl, ap, ◌∙◌, Bool, false, not, List, [], ◌∷◌, Bytes, length,
}
use cubic_go_playground.Prelude.Result.{Result, err, ok}
use cubic_go_playground.Route.Messages.{Event, logged, parse_and_log_msgs}
use cubic_go_playground.Route.Logged.{parse_and_log_msgs-logged}
use cubic_go_playground.Route.Sockets.{socket_of, open_routing_socket}
use cubic_go_playground.Route.Sysctl.{Grows, Tells, sysctl_get_bytes-fetched}
use cubic_go_playground.Route.Start.{
  Source, interface, route, monitor, Log, messages, no_message, reads_on, Platform, Machine,
  handled, monitor_routing_socket, on_route_dump, on_interface_dump, on_ioctl_socket,
  on_routing_socket, main,
}

module _ (os : Platform) where
  -- The messages of a buffer are read, with no slice out of range, and are what is logged.
  abbrev pub Reads : Source → Bool → Bytes → Log → Type 0
  Reads source filter b l =
      (es : List Event) × (parse_and_log_msgs os.header os.align_to os.unix os.rt os.ifm os.ifam
          filter b
        ≡ logged es)
      × (l ≡ messages source (logged es))

  -- Each read of the routing socket leads to one entry: its error, or its messages without a filter.
  abbrev pub Answered : List (Result ℕ Bytes) → List Log → Type 0
  Answered [] [] = Unit
  Answered (err e ∷ reads) (l ∷ log) = (l ≡ no_message e) × Answered reads log
  Answered (ok b ∷ reads) (l ∷ log) = Reads monitor false b l × Answered reads log
  Answered _ _ = ⊥

  handled-Reads :
      (source : Source) (filter : Bool) (b : Bytes)
      → Reads source filter b (handled os source filter b)
  unfolding handled
  handled-Reads source filter b =
      let (es, got) =
        parse_and_log_msgs-logged os.header os.align_to os.unix os.rt os.ifm os.ifam filter b in
      (es, got, ap (messages source) got)

  monitor_routing_socket-Answered :
      (reads : List (Result ℕ Bytes)) → Answered reads (monitor_routing_socket os reads)
  unfolding monitor_routing_socket
  monitor_routing_socket-Answered [] = tt
  monitor_routing_socket-Answered (err e ∷ reads) = (refl, monitor_routing_socket-Answered reads)
  monitor_routing_socket-Answered (ok b ∷ reads) =
      (handled-Reads monitor false b, monitor_routing_socket-Answered reads)

  -- If both sockets are opened, and sysctl tells a size above 0 at first for both dumps, one that is
  -- large enough for what there is in some round, and fills any buffer that is large enough, then
  -- the program gets to the routing socket. What is logged of each dump is the messages of what
  -- there was in some round, read with the filter unless all is asked for, and of the reads after
  -- that, one by one, the error of a failed one and the messages of any other, read without the
  -- filter; no slice is out of range.
  pub main-reads_on :
      (m : Machine) (k : ℕ) (dump_all : Bool) (fd fd' : ℕ) (told told' : ℕ → ℕ)
      (content content' : ℕ → Bytes) (j j' : ℕ)
      → (open_routing_socket os.kind os.unix m.kernel).result ≡ ok fd
      → (socket_of os.kind os.unix m.kernel (os.unix "AF_INET6") (os.unix "SOCK_DGRAM") 0).result
        ≡ ok fd'
      → Grows m.grow
      → Tells (os.unix "ENOMEM") m.iflist told content
      → Tells (os.unix "ENOMEM") m.dump told' content'
      → 0 < told 0
      → 0 < told' 0
      → j ≤ k
      → length (content k) ≤ told j
      → j' ≤ k
      → length (content' k) ≤ told' j'
      → (i i' : ℕ) × (l l' : Log) × (log : List Log) × (main os m (suc k) dump_all
          ≡ reads_on (l ∷ l' ∷ log))
        × Reads interface (not dump_all) (content i) l
        × Reads route (not dump_all) (content' i') l'
        × Answered m.reads log
  unfolding main on_routing_socket on_ioctl_socket on_interface_dump on_route_dump
  main-reads_on m k dump_all fd fd' told told' content content' j j' opened opened' grows tells
        tells' some some' le enough le' enough' =
      let (i, _, got) =
        sysctl_get_bytes-fetched (os.unix "ENOMEM") m.grow m.iflist told content k j grows tells
          some le enough in
      let (i', _, got') =
        sysctl_get_bytes-fetched (os.unix "ENOMEM") m.grow m.dump told' content' k j' grows tells'
          some' le' enough' in
      let first : Log = handled os interface (not dump_all) (content i) in
      (
        i,
        i',
        first,
        handled os route (not dump_all) (content' i'),
        monitor_routing_socket os m.reads,
        ap (on_routing_socket os m (suc k) dump_all) opened
            ∙ ap (on_ioctl_socket os m (suc k) dump_all) opened'
            ∙ ap (on_interface_dump os m (suc k) dump_all) got
            ∙ ap (on_route_dump os m (suc k) dump_all (first ∷ [])) got',
        handled-Reads interface (not dump_all) (content i),
        handled-Reads route (not dump_all) (content' i'),
        monitor_routing_socket-Answered m.reads,
      )
