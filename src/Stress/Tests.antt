-- ===== src/Stress/Tests.antt =====
-- Runs of the model of tfo/stress/main.go, and its theorem at a concrete input.
use cubic_go_playground.Prelude.{◌≡◌, refl, [], ◌∷◌, none, some}
use cubic_go_playground.Stress.Rounds.{
  dials, logs_fatal, logs_close_write_error, logs_bytes, closes, sleeps, Round, read_all,
  stress_tfo, main_loop,
}

abbrev answered : Round
answered = record {
  dial_error = none;
  close_write_error = some 57;
  pieces = (5 ∷ []) ∷ (255 ∷ []) ∷ [];
  read_error = none;
}

abbrev refused : Round
refused = record answered { dial_error = some 61 }

main_loop-refused : main_loop (answered ∷ refused ∷ answered ∷ []) ≡ (
  some 1,
  dials (5 ∷ 2 ∷ 1 ∷ 2 ∷ [])
      ∷ logs_close_write_error 57
      ∷ logs_bytes (5 ∷ 255 ∷ [])
      ∷ closes
      ∷ sleeps
      ∷ dials (5 ∷ 2 ∷ 1 ∷ 2 ∷ [])
      ∷ logs_fatal 61
      ∷ [],
)
unfolding main_loop stress_tfo read_all
main_loop-refused = refl
