-- ===== src/Windows/Counted.antt =====
-- How often route/cmd/route/main_windows.go fetches the table.
use cubic_go_playground.Prelude.{
  sum_of, sum_of-append, ℕ, ◌≤◌, ◌≡◌, refl, Bool, true, false, not, ◌||◌, List, [], ◌∷◌,
  if◌then◌else◌, arith,
}
use cubic_go_playground.Prelude.Result.{Result, err, ok}
use cubic_go_playground.Windows.Rows.{MibIpForwardRow2, Constants}
use cubic_go_playground.Windows.Handler.{
  Notification, System, Effect, gets_table, frees_table, log_mib_ip_forward_row2, log_rows,
  on_entry, on_table, row_of, handle_change, handle_initial, handle, consume,
}
use cubic_go_playground.Windows.Handled.{is_initial}

-- Whether an effect fetches the table, or frees it.
abbrev pub is_get : Effect → ℕ
is_get gets_table = 1
is_get _ = 0

abbrev pub is_free : Effect → ℕ
is_free frees_table = 1
is_free _ = 0

module _ (c : Constants) where
  abbrev pub some_initial : List (System × Notification) → Bool
  some_initial [] = false
  some_initial ((sys, n) ∷ ns) = is_initial c n.notification_type || some_initial ns

  -- What is fetched and what is freed by that.
  abbrev Balanced : ℕ → List Effect → Type 0
  Balanced n es = (sum_of is_get es ≡ n) × (sum_of is_free es ≤ n)

  log_row-Balanced :
      (row : MibIpForwardRow2) (only : Bool) → Balanced 0 (log_mib_ip_forward_row2 c row only)
  unfolding log_mib_ip_forward_row2
  log_row-Balanced row only = ground arith

  log_rows-Balanced : (all : Bool) (rows : List MibIpForwardRow2) → Balanced 0 (log_rows c all rows)
  unfolding log_rows
  log_rows-Balanced all [] = (refl, omega arith)
  log_rows-Balanced all (row ∷ rows) =
      let es : List Effect = log_mib_ip_forward_row2 c row (not all) in
      ground (
        arith,
        log_row-Balanced row (not all),
        log_rows-Balanced all rows,
        sum_of-append is_get es (log_rows c all rows),
        sum_of-append is_free es (log_rows c all rows),
      )

  on_entry-Balanced : (answer : Result ℕ MibIpForwardRow2) → Balanced 0 (on_entry c answer)
  unfolding on_entry
  on_entry-Balanced (err e) = ground arith
  on_entry-Balanced (ok row) = log_row-Balanced row false

  on_table-Balanced :
      (all : Bool) (answer : Result ℕ (List MibIpForwardRow2))
      → (sum_of is_get (on_table c all answer) ≡ 0) × (sum_of is_free (on_table c all answer) ≤ 1)
  unfolding on_table
  on_table-Balanced all (err e) = (refl, omega arith)
  on_table-Balanced all (ok rows) = ground (
    arith,
    log_rows-Balanced all rows,
    sum_of-append is_get (log_rows c all rows) (frees_table ∷ []),
    sum_of-append is_free (log_rows c all rows) (frees_table ∷ []),
  )

  handle_change-Balanced : (sys : System) (n : Notification) → Balanced 0 (handle_change c sys n)
  unfolding handle_change
  handle_change-Balanced sys n =
      ground (arith, on_entry-Balanced (sys.get_ip_forward_entry2 (row_of n)))

  handle_initial-Balanced :
      (all handled : Bool) (sys : System)
      → Balanced (if handled then 0 else 1) (handle_initial c all handled sys)
  unfolding handle_initial
  handle_initial-Balanced all true sys = (refl, omega arith)
  handle_initial-Balanced all false sys =
      ground (arith, on_table-Balanced all sys.get_ip_forward_table2)

  handle-Balanced :
      (all handled : Bool) (sys : System) (n : Notification)
      → Balanced
          (if handled then 0 else if is_initial c n.notification_type then 1 else 0)
          (handle c all handled sys n).1
        × ((handle c all handled sys n).0 ≡ handled || is_initial c n.notification_type)
  unfolding handle
  handle-Balanced all handled sys n =
      ground (arith, handle_change-Balanced sys n, handle_initial-Balanced all handled sys)

  consume-Balanced :
      (all handled : Bool) (ns : List (System × Notification))
      → Balanced
          (if handled then 0 else if some_initial ns then 1 else 0)
          (consume c all handled ns).1
  unfolding consume
  consume-Balanced all handled [] = ground arith
  consume-Balanced all handled ((sys, n) ∷ ns) =
      let r : Bool × List Effect = handle c all handled sys n in
      ground (
        arith,
        handle-Balanced all handled sys n,
        consume-Balanced all r.0 ns,
        sum_of-append is_get r.1 (consume c all r.0 ns).1,
        sum_of-append is_free r.1 (consume c all r.0 ns).1,
      )

  -- Whatever is notified and whatever the system answers, the table is fetched once if there is an
  -- initial notification and never otherwise, and it is freed no more often than it is fetched.
  pub consume-calls :
      (all : Bool) (ns : List (System × Notification))
      → (sum_of is_get (consume c all false ns).1 ≡ (if some_initial ns then 1 else 0))
        × (sum_of is_free (consume c all false ns).1 ≤ (if some_initial ns then 1 else 0))
  consume-calls all ns = consume-Balanced all false ns
