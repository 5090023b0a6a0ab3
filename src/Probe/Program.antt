-- ===== src/Probe/Program.antt =====
-- `main` of probe/tcp.go. What the peer and the network do is a parameter; the bytes of a connection
-- come in pieces, and an error of a read comes behind them. A signal that comes while the program
-- reads makes the pending read fail with the deadline's error; one that comes later is left out.
use cubic_go_playground.Prelude.{
  ℕ, zero, suc, ◌+◌, ◌-◌, List, [], ◌∷◌, ◌++◌, Option, none, some, ltb, leb, ◌==◌, if◌then◌else◌,
  length, Bytes, ℤ, pos, negsuc,
}

-- The errors of reading, as far as the program and `io.ReadFull` tell them apart.
pub data ReadError : Type 0 where
  eof : ReadError
  unexpected_eof : ReadError
  deadline_exceeded : ReadError
  read_failed : ℕ → ReadError

-- What is left of a connection to read.
pub record Incoming : Type 0 where
  pub pieces : List Bytes
  pub ending : ReadError

-- `io.ReadAtLeast` of a buffer of `room` more bytes: one read after the other, up to an error or to
-- a full buffer. A read returns what fits of the next piece.
unfoldable pub read_loop : (n room : ℕ) → List Bytes → ReadError → ℕ × Option ReadError
read_loop n room [] ending = if room == 0 then (n, none) else (n, some ending)
read_loop n room (piece ∷ pieces) ending =
    let rest = read_loop (n + length piece) (room - length piece) pieces ending in
    if room == 0 then (n, none) else if leb room (length piece) then (n + room, none) else rest

-- `io.ReadFull`: an end behind some of the bytes is unexpected.
unfoldable pub full_error : ℕ → Option ReadError → Option ReadError
full_error n none = none
full_error n (some eof) = if ltb 0 n then some unexpected_eof else some eof
full_error n (some e) = some e

unfoldable pub read_full : ℕ → Incoming → ℕ × Option ReadError
read_full size conn =
    let (n, error) = read_loop 0 size conn.pieces conn.ending in (n, full_error n error)

pub data ProbeEvent : Type 0 where
  prints_missing_address : ProbeEvent
  prints_usage : ProbeEvent
  prints_negative_size : ProbeEvent
  logs_dial_error : ℕ → ProbeEvent
  logs_connected : ProbeEvent
  writes : Bytes → ProbeEvent
  logs_fatal : ℕ → ProbeEvent
  logs_written : (size first : ℕ) → ProbeEvent
  logs_stopping : ProbeEvent
  logs_read_error : ReadError → ProbeEvent
  logs_read : ℕ → ProbeEvent
  closes : ProbeEvent

-- The network of one run: the error of `net.Dial`, that of `conn.Write`, and what comes in.
pub record Network : Type 0 where
  pub dial_error : Option ℕ
  pub write_error : Option ℕ
  pub incoming : Incoming

pub record Args : Type 0 where
  pub address : Bytes
  pub size : ℤ

-- `make([]byte, size)` behind `rand.Read`.
unfoldable pub random_bytes : (ℕ → ℕ) → (i size : ℕ) → Bytes
random_bytes random i zero = []
random_bytes random i (suc size) = random i ∷ random_bytes random (suc i) size

abbrev pub buffer_size : ℕ
buffer_size = 65535

-- What is logged of the error of the read, and of the signal.
unfoldable pub on_read_error : Option ReadError → List ProbeEvent
on_read_error none = []
on_read_error (some deadline_exceeded) = logs_stopping ∷ []
on_read_error (some e) = logs_read_error e ∷ []

unfoldable pub receive : Incoming → List ProbeEvent
receive conn =
    let (n, error) = read_full buffer_size conn in on_read_error error ++ logs_read n ∷ closes ∷ []

-- The exit code, and what is done, from the connection on: `log.Fatal` exits without the deferred
-- call.
unfoldable pub send : (ℕ → ℕ) → ℕ → Network → ℕ × List ProbeEvent
send random zero net = (0, receive net.incoming)
send random (suc k) net = elim (net.write_error) [
  | some e ↦ (1, writes (random_bytes random 0 (suc k)) ∷ logs_fatal e ∷ [])
  | none ↦ (
    0,
    writes (random_bytes random 0 (suc k)) ∷ logs_written (suc k) (random 0) ∷ receive net.incoming,
  )
]

abbrev pub connect : (ℕ → ℕ) → ℕ → Network → ℕ × List ProbeEvent
connect random size net = elim (net.dial_error) [
  | some e ↦ (0, logs_dial_error e ∷ [])
  | none ↦ ((send random size net).0, logs_connected ∷ (send random size net).1)
]

unfoldable pub main : (ℕ → ℕ) → Args → Network → ℕ × List ProbeEvent
main random args net = elim (args.address) [
  | [] ↦ (0, prints_missing_address ∷ prints_usage ∷ [])
  | c ∷ address ↦ elim (args.size) [
    | negsuc n ↦ (0, prints_negative_size ∷ [])
    | pos size ↦ connect random size net
  ]
]
