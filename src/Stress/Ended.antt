-- ===== src/Stress/Ended.antt =====
-- When tfo/stress/main.go ends.
use cubic_go_playground.Prelude.{
  sum_of, sum_of-append, ℕ, ◌≡◌, refl, List, [], ◌∷◌, ◌++◌, none, some, length, list_laws, arith,
}
use cubic_go_playground.Stress.Rounds.{
  StressEvent, dials, logs_fatal, closes, sleeps, Round, stress_tfo, main_loop,
}

-- How many connections are opened and closed.
abbrev is_dial : StressEvent → ℕ
is_dial (dials b) = 1
is_dial _ = 0

abbrev is_close : StressEvent → ℕ
is_close closes = 1
is_close _ = 0

stress_tfo-dialled :
    (round : Round)
    → round.dial_error ≡ none
    → ((stress_tfo round).0 ≡ none)
      × (sum_of is_dial (stress_tfo round).1 ≡ 1)
      × (sum_of is_close (stress_tfo round).1 ≡ 1)
unfolding stress_tfo
stress_tfo-dialled round h = ground arith

stress_tfo-failed :
    (round : Round) (e : ℕ)
    → round.dial_error ≡ some e
    → stress_tfo round ≡ (some 1, dials (5 ∷ 2 ∷ 1 ∷ 2 ∷ []) ∷ logs_fatal e ∷ [])
unfolding stress_tfo
stress_tfo-failed round e h = ground arith

-- Every connection is made.
abbrev AllDialled : List Round → Type 0
AllDialled [] = Unit
AllDialled (round ∷ rounds) = (round.dial_error ≡ none) × AllDialled rounds

main_loop-next :
    (round : Round) (rounds : List Round)
    → (stress_tfo round).0 ≡ none
    → main_loop (round ∷ rounds)
      ≡ ((main_loop rounds).0, (stress_tfo round).1 ++ sleeps ∷ (main_loop rounds).1)
unfolding main_loop
main_loop-next round rounds h = ground arith

main_loop-dialled :
    (rounds : List Round)
    → AllDialled rounds
    → ((main_loop rounds).0 ≡ none)
      × (sum_of is_dial (main_loop rounds).1 ≡ length rounds)
      × (sum_of is_close (main_loop rounds).1 ≡ length rounds)
unfolding main_loop
main_loop-dialled [] h = (refl, refl, refl)
main_loop-dialled (round ∷ rounds) h =
    let one = stress_tfo-dialled round h.0 in
    let next = main_loop-next round rounds one.0 in
    let more = main_loop-dialled rounds h.1 in
    ground (
      arith,
      one,
      next,
      more,
      sum_of-append is_dial (stress_tfo round).1 (sleeps ∷ (main_loop rounds).1),
      sum_of-append is_close (stress_tfo round).1 (sleeps ∷ (main_loop rounds).1),
    )

main_loop-ends :
    (before after : List Round) (round : Round) (e : ℕ)
    → AllDialled before
    → round.dial_error ≡ some e
    → main_loop (before ++ round ∷ after)
      ≡ (some 1, (main_loop before).1 ++ dials (5 ∷ 2 ∷ 1 ∷ 2 ∷ []) ∷ logs_fatal e ∷ [])
unfolding main_loop
main_loop-ends [] after round e h failed = ground (arith, stress_tfo-failed round e failed)
main_loop-ends (r ∷ rs) after round e h failed =
    let on = (stress_tfo-dialled r h.0).0 in
    simp (
      list_laws,
      main_loop-next r (rs ++ round ∷ after) on,
      main_loop-next r rs on,
      main_loop-ends rs after round e h.1 failed,
    )

-- The loop goes on as long as the connections are made, and closes each of them; in the first round
-- in which one is not made, the program exits with 1.
main_loop-first_failure :
    (before after : List Round) (round : Round) (e : ℕ)
    → AllDialled before
    → round.dial_error ≡ some e
    → ((main_loop before).0 ≡ none)
      × (sum_of is_dial (main_loop before).1 ≡ length before)
      × (sum_of is_close (main_loop before).1 ≡ length before)
      × (main_loop (before ++ round ∷ after)
          ≡ (some 1, (main_loop before).1 ++ dials (5 ∷ 2 ∷ 1 ∷ 2 ∷ []) ∷ logs_fatal e ∷ []))
main_loop-first_failure before after round e all failed =
    let (on, dialled, closed) = main_loop-dialled before all in
    (on, dialled, closed, main_loop-ends before after round e all failed)
