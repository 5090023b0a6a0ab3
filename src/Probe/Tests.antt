-- ===== src/Probe/Tests.antt =====
-- Runs of the model of probe/tcp.go, and its theorem at a concrete input.
use cubic_go_playground.Prelude.{
  ◌≡◌, inr, refl, [], ◌∷◌, ◌++◌, none, some, length, sum_of, pos, negsuc, arith, ℤ, codes,
}
use cubic_go_playground.Probe.Program.{
  ReadError, eof, unexpected_eof, deadline_exceeded, read_loop, full_error, read_full,
  on_read_error, receive, send, main, Network, Args, random_bytes, logs_connected, logs_read,
  logs_read_error, logs_written, logs_stopping, logs_fatal, writes, closes, prints_negative_size,
}
use cubic_go_playground.Probe.Reported.{firsts, sends, reports, main-transfers}

abbrev net : ReadError → Network
net e = record {
  dial_error = none;
  write_error = none;
  incoming = record { pieces = (1 ∷ 2 ∷ []) ∷ (3 ∷ []) ∷ []; ending = e };
}

abbrev args : ℤ → Args
args n = record { address = codes "localhost:80"; size = n }

main_cut_off : main (λ i. 7) (args (pos 1)) (net eof) ≡ (
  0,
  logs_connected
      ∷ writes (7 ∷ [])
      ∷ logs_written 1 7
      ∷ logs_read_error unexpected_eof
      ∷ logs_read 3
      ∷ closes
      ∷ [],
)
unfolding main send receive read_full read_loop full_error on_read_error random_bytes
main_cut_off = refl

main_interrupted :
    main (λ i. 7) (args (pos 0)) (net deadline_exceeded)
    ≡ (0, logs_connected ∷ logs_stopping ∷ logs_read 3 ∷ closes ∷ [])
unfolding main send receive read_full read_loop full_error on_read_error
main_interrupted = refl

main_refused :
    main (λ i. 7) (args (pos 1)) (record (net eof) { write_error = some 32 })
    ≡ (1, logs_connected ∷ writes (7 ∷ []) ∷ logs_fatal 32 ∷ [])
unfolding main send random_bytes
main_refused = refl

main_negative : main (λ i. 7) (args (negsuc 0)) (net eof) ≡ (0, prints_negative_size ∷ [])
unfolding main
main_negative = refl

main-transfers_example :
    (main (λ i. 7) (args (pos 2)) (net eof) ≡ (
      0,
      logs_connected ∷ sends (λ i. 7) 2
          ++ reports (sum_of length (net eof).incoming.pieces) (net eof).incoming.ending,
    ))
    × (length (firsts (λ i. 7) 2) ≡ 2)
main-transfers_example =
    main-transfers (λ i. 7) (args (pos 2)) (net eof) 2 (ground arith) refl refl (inr refl)
