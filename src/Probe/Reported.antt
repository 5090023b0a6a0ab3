-- ===== src/Probe/Reported.antt =====
-- What probe/tcp.go reports.
use cubic_go_playground.Prelude.{
  ℕ, zero, suc, ◌+◌, ◌-◌, ◌≡◌, ◌≢◌, ◌⊎◌, refl, ap, ◌∙◌, length-append, List, [], ◌∷◌, ◌++◌, none,
  some, leb, ◌==◌, if◌then◌else◌, length, sum_of, Bytes, pos, arith,
}
use cubic_go_playground.Probe.Program.{
  ReadError, eof, unexpected_eof, deadline_exceeded, read_failed, Incoming, read_loop, full_error,
  read_full, on_read_error, receive, send, main, ProbeEvent, Network, Args, random_bytes,
  buffer_size, logs_connected, logs_stopping, logs_read_error, logs_read, logs_written, writes,
  closes,
}

read_loop-total :
    (n room : ℕ) (pieces : List Bytes) (ending : ReadError)
    → read_loop n room pieces ending ≡ (
        if leb room (sum_of length pieces)
        then (n + room, none)
        else (n + sum_of length pieces, some ending))
unfolding read_loop
read_loop-total n room [] ending = ground arith
read_loop-total n room (piece ∷ pieces) ending =
    ground (arith, read_loop-total (n + length piece) (room - length piece) pieces ending)

-- However the bytes are cut into pieces, io.ReadFull gives the size of the buffer without an error
-- if there are as many, and else how many there are, with the error behind them, where an end behind
-- some of them is unexpected.
pub read_full-total :
    (size : ℕ) (conn : Incoming)
    → read_full size conn ≡ (
        if leb size (sum_of length conn.pieces)
        then (size, none)
        else (sum_of length conn.pieces, full_error (sum_of length conn.pieces) (some conn.ending)))
unfolding read_full full_error
read_full-total size conn = ground (arith, read_loop-total 0 size conn.pieces conn.ending)

-- The first random bytes, and what is done with them.
abbrev pub firsts : (ℕ → ℕ) → ℕ → Bytes
firsts random zero = []
firsts random (suc k) = firsts random k ++ random k ∷ []

abbrev pub sends : (ℕ → ℕ) → ℕ → List ProbeEvent
sends random zero = []
sends random (suc k) = writes (firsts random (suc k)) ∷ logs_written (suc k) (random 0) ∷ []

-- What is said of the error behind so many bytes: nothing if they fill the buffer; of a deadline
-- that the signal; of an end behind some bytes that it is unexpected; else the error.
abbrev pub said : ℕ → ReadError → List ProbeEvent
said n deadline_exceeded = if leb 65535 n then [] else logs_stopping ∷ []
said n eof =
    if leb 65535 n then [] else logs_read_error (if n == 0 then eof else unexpected_eof) ∷ []
said n unexpected_eof = if leb 65535 n then [] else logs_read_error unexpected_eof ∷ []
said n (read_failed e) = if leb 65535 n then [] else logs_read_error (read_failed e) ∷ []

abbrev pub reports : ℕ → ReadError → List ProbeEvent
reports n e = said n e ++ logs_read (if leb 65535 n then 65535 else n) ∷ closes ∷ []

random_bytes-snoc :
    (random : ℕ → ℕ) (i k : ℕ)
    → random_bytes random i (suc k) ≡ random_bytes random i k ++ random (i + k) ∷ []
unfolding random_bytes
random_bytes-snoc random i zero = ap (λ j. random j ∷ []) (omega arith)
random_bytes-snoc random i (suc k) =
    ap (λ l. random i ∷ l)
      (random_bytes-snoc random (suc i) k
        ∙ ap (λ j. random_bytes random (suc i) k ++ random j ∷ []) (omega arith))

random_bytes-firsts : (random : ℕ → ℕ) (k : ℕ) → random_bytes random 0 k ≡ firsts random k
unfolding random_bytes
random_bytes-firsts random zero = refl
random_bytes-firsts random (suc k) =
    random_bytes-snoc random 0 k
    ∙ ap (λ l. l ++ random (0 + k) ∷ []) (random_bytes-firsts random k)
    ∙ ap (λ j. firsts random k ++ random j ∷ []) (omega arith)

length-firsts : (random : ℕ → ℕ) (k : ℕ) → length (firsts random k) ≡ k
length-firsts random zero = refl
length-firsts random (suc k) =
    omega (arith, length-append (firsts random k) (random k ∷ []), length-firsts random k)

receive-reports : (conn : Incoming) → receive conn ≡ reports (sum_of length conn.pieces) conn.ending
unfolding receive full_error on_read_error
receive-reports conn = ground (arith, read_full-total buffer_size conn)

-- If there is an address, the size is not negative, the connection is made, and nothing is to be
-- written or the write succeeds: the program exits with 0 and sends as many random bytes as asked
-- for; however the answer is cut into pieces, it reports how many of its bytes came and fit in the
-- buffer of 65535; before that, unless the buffer is full, it reports the error behind them, an end
-- behind some bytes as unexpected, and in place of the deadline's the signal; it closes the
-- connection last.
pub main-transfers :
    (random : ℕ → ℕ) (args : Args) (net : Network) (k : ℕ)
    → args.address ≢ []
    → args.size ≡ pos k
    → net.dial_error ≡ none
    → (k ≡ 0) ⊎ (net.write_error ≡ none)
    → (main random args net ≡ (
      0,
      logs_connected ∷ sends random k
          ++ reports (sum_of length net.incoming.pieces) net.incoming.ending,
    ))
      × (length (firsts random k) ≡ k)
unfolding main send
main-transfers random args net k named size dialled wrote = (
  ground (arith, receive-reports net.incoming, random_bytes-firsts random k),
  length-firsts random k,
)
