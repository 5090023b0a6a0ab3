-- ===== src/Stress/Rounds.antt =====
-- `main` and `stressTFO` of tfo/stress/main.go. What the package tfo and the network do in each round
-- is a parameter; the server of net/http/pprof beside it is left out.
use cubic_go_playground.Prelude.{ℕ, List, [], ◌∷◌, ◌++◌, Option, none, some, Bytes}

pub data StressEvent : Type 0 where
  dials : Bytes → StressEvent
  logs_fatal : ℕ → StressEvent
  logs_close_write_error : ℕ → StressEvent
  logs_read_error : ℕ → StressEvent
  logs_bytes : Bytes → StressEvent
  closes : StressEvent
  sleeps : StressEvent

-- The errors of one round, and what the peer sends, in pieces; a read that ends at io.EOF has none.
pub record Round : Type 0 where
  pub dial_error : Option ℕ
  pub close_write_error : Option ℕ
  pub pieces : List Bytes
  pub read_error : Option ℕ

-- `io.ReadAll`.
unfoldable pub read_all : List Bytes → Bytes
read_all [] = []
read_all (piece ∷ pieces) = piece ++ read_all pieces

abbrev pub logged : (ℕ → StressEvent) → Option ℕ → List StressEvent
logged log none = []
logged log (some e) = log e ∷ []

-- `stressTFO`: whether it exits, and what it does. `log.Fatal` runs no deferred call.
unfoldable pub stress_tfo : Round → Option ℕ × List StressEvent
stress_tfo round = elim (round.dial_error) [
  | some e ↦ (some 1, dials (5 ∷ 2 ∷ 1 ∷ 2 ∷ []) ∷ logs_fatal e ∷ [])
  | none ↦ (
    none,
    dials (5 ∷ 2 ∷ 1 ∷ 2 ∷ []) ∷ logged logs_close_write_error round.close_write_error
        ++ logged logs_read_error round.read_error
        ++ logs_bytes (read_all round.pieces) ∷ closes ∷ [],
  )
]

-- The rounds of the loop of `main`, as many as are given, with the exit code if it exits in one.
unfoldable pub main_loop : List Round → Option ℕ × List StressEvent
main_loop [] = (none, [])
main_loop (round ∷ rounds) =
    let (code, events) = stress_tfo round in
    let (last, more) = main_loop rounds in
    elim code [ some c ↦ (some c, events) | none ↦ (last, events ++ sleeps ∷ more) ]
