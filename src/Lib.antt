-- ===== src/Lib.antt =====
-- A model of the Go packages of this repository, and what is proved of it.
--
-- The repository is a collection of small packages and programs. The parts that are modelled:
--
-- Cache models cache/cache.go, a map with a doubly linked list in the order of expiry.
--   Cache/Store has the heap of nodes, the struct and the commands that read and write them; a
--   command returns a value and the new state, or panics, or runs out of rounds. nil is the
--   pointer 0. The Go map is that of GoMap. Cache/Nodes has detach, insertBefore, insertAfter
--   and remove, and Cache/Ops every other method. Cache/Spec is the abstract view: the list of
--   entries in the order of expiry. Cache/Links, Cache/Distinct and Cache/Chain say what a list
--   on the heap is, Cache/Invariant when a cache is well formed. Cache/Detach, Cache/Place,
--   Cache/Remove, Cache/Prune, Cache/Pending, Cache/Create and Cache/Insert are about the steps,
--   Cache/FromHead and Cache/FromTail about the setters, Cache/Read, Cache/Find and
--   Cache/Iterate about the readers, Cache/After and Cache/Ends about a set and what comes after
--   it, Cache/Start and Cache/History about whole runs. A loop gets one round more than there
--   are entries, since each round but the last passes an entry. An instant is a number of
--   nanoseconds. The mutex is not modelled: a method is one step, and what TryRLock returns is
--   an argument of TryContains. Get and GetEntry release the lock behind their
--   lookup; they are modelled without other calls beside them, since what they then read of a
--   node that a setter is writing is left open by the language.
--
-- Route models route/bsdroute and the reader of messages of route/cmd/route on the BSD systems.
--   Route/Align is RtaAlign, in the arithmetic of bytes, Route/Addrs is ParseAddrs, where a
--   pointer into a buffer is the rest of the buffer, Route/Flags has the texts of flags and of
--   message types and Route/Names with its children the tables of the five systems.
--   Route/Messages is parseAndLogMsgs of route/cmd/route/main_bsd.go with AddrsBuf of both kinds
--   of header; what is logged is a list of events, and the loop gets one round more than the
--   buffer has bytes, since each message takes some. Route/Laid and Route/InBounds are about
--   addresses, Route/Shown, Route/Joined, Route/Types and Route/Texts about texts, Route/Logged,
--   Route/Framed and Route/Filtered about messages. The constants and layouts of golang.org/x/sys/unix are
--   parameters. An int32 is its bit pattern. Route/Attrs is appendAddrAttrs with
--   IoctlGetIfaFlagInet6; Route/Meant says what the addresses mean and what is shown of them, and
--   Route/Shows and Route/Listed are about it. Route/Sysctl is
--   SysctlGetBytes, over what the system answers in each round. Route/Sockets has both forms of
--   Socket and OpenRoutingSocket as lists of system calls, and Route/Opened is about them.
--   Route/Start is main with monitorRoutingSocket, over what the system answers, and
--   Route/Started is about a run of it; SysctlGetBytes is given a number of rounds.
--
-- Prefixset models prefixset/bart.go, prefixset/ipset.go and prefixset/prefixset.go.
--   Prefixset/Lines has the lines of a text and what is kept of a line, Prefixset/Sets the
--   readers and printers; Prefixset/Rendered, Prefixset/Texts and Prefixset/Roundtrip are about
--   them. netip.ParsePrefix, Prefix.AppendTo and the sets and builders of third-party packages
--   are parameters.
--
-- Ip models ip/ip.go: Ip/Endpoint has the functions, over the addresses of net/netip as 128 bits
--   with a zone, and Ip/Equal is about them. Ip/Netip has what else the programs call of
--   net/netip.
--
-- DataByIp models ssgodatabyip/ssgodatabyip.go. DataByIp/Reader is eventJSONReader over the
--   buffer of bufio, and DataByIp/Lines, DataByIp/Stream, DataByIp/Delivered and
--   DataByIp/Contract are about it; the loop of Read gets the length of the buffer, since each
--   round writes a byte. encoding/json is not modelled: it gives a list of events and how it
--   ended. DataByIp/Totals has the sums by address, on the map of GoMap, and DataByIp/Report the
--   order and the output; DataByIp/Charge says whom an event is charged to, and DataByIp/Sorted
--   is about the report.
--
-- Resolv models resolv/main.go: Resolv/Family has the flag of the address family, Resolv/Lookup
--   the choice of an address and the program around it, over what the resolver answers, and
--   Resolv/Chosen is about them.
--
-- Windows models the notifications of route/cmd/route/main_windows.go. Windows/Rows has the rows
--   and their addresses, Windows/Handler the callback, the handler and the consumer of the
--   channel, as lists of effects: calls of the system and what is logged. What the system
--   answers is a parameter, another one at each notification. Windows/Handled and
--   Windows/Counted are about them. Windows/Run has run itself, as a step relation: the main
--   thread, the callbacks that wait in their sends on the unbuffered channel, and the consumer
--   take their steps in any order, and a call of the system is a step with each answer that it
--   may give. Windows/Run/Told says what is read off the log, Windows/Run/Sound and
--   Windows/Run/Moves have the invariant, and Windows/Run/Outcome and Windows/Run/Ends are about
--   how a run goes on and ends.
--
-- Tslog models logging/tslog/tslog.go. Tslog/Logger has Config and Logger over any handlers,
--   which are those of log/slog and tint, with what is written as a list of effects; Tslog/Attrs
--   has the attributes, over any text of a valid address. Tslog/Written and Tslog/Texts are
--   about them.
--
-- Logging models logging/logging.go: Logging/Loggers has the configurations and constructors, over
--   what zap, tint and zerolog make of them. Logging/Timed is about them.
--
-- Sshclient, Probe and Stress model the programs sshclient/sshclient.go, probe/tcp.go and
--   tfo/stress/main.go (Sshclient/Program, Probe/Program, Stress/Rounds), as an exit code and a
--   list of what is done, over what the network and the packages answer. Sshclient/Verified,
--   Probe/Reported and Stress/Ended are about them.
--
-- Entry models route/cmd/route/main.go, main_stub.go and the start of main in main_bsd.go and
--   main_windows.go: Entry/Flags has the flags, and the logger of Tslog that they configure;
--   Entry/Configured is about it.
--
-- GoMap has the Go map as a list of entries, GoMap/Laws its laws.
--
-- Prelude has the Boolean tests, lists with their laws, bytes and results that the parts share.
-- Tests and runs
-- at concrete inputs are in Cache/Tests, Cache/Examples, Route/Tests, Route/Runs,
-- Route/Samples, Route/Launched, Prefixset/Tests, DataByIp/Tests, Resolv/Tests, Windows/Tests,
-- Windows/Run/Tests, Tslog/Tests, Logging/Tests, Sshclient/Tests, Probe/Tests, Stress/Tests,
-- Entry/Tests and Ip/Tests.
--
-- Not modelled: NewTicker of the clock in logging, tslog.Err and the server of net/http/pprof in
-- tfo/stress, which are calls of libraries, and the packages that only have tests and benchmarks
-- (csprng, ecdh, shadowsocks, swgp).
pub mod Cache
pub mod DataByIp
pub mod Entry
pub mod GoMap
pub mod Ip
pub mod Logging
pub mod Prefixset
pub mod Prelude
pub mod Probe
pub mod Resolv
pub mod Route
pub mod Sshclient
pub mod Stress
pub mod Tslog
pub mod Windows
