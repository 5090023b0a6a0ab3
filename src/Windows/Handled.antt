-- ===== src/Windows/Handled.antt =====
-- What route/cmd/route/main_windows.go does for a sequence of notifications.
use cubic_go_playground.Prelude.{
  ℕ, ◌≡◌, refl, ap, ◌∙◌, Bool, true, false, not, ◌&&◌, ◌||◌, List, [], ◌∷◌, ◌++◌, list_laws, ◌==◌,
  if◌then◌else◌, arith,
}
use cubic_go_playground.Prelude.Result.{Result, err, ok}
use cubic_go_playground.Ip.Endpoint.{same_zone}
use cubic_go_playground.Ip.Netip.{prefix_from}
use cubic_go_playground.Windows.Rows.{
  IpAddressPrefix, MibIpForwardRow2, Constants, ip_from_sockaddr_inet,
  prefix_from_ip_address_prefix, is_left_out,
}
use cubic_go_playground.Windows.Handler.{
  Notification, System, Effect, gets_table, frees_table, logs_row, logs_no_table, numbers_of,
  log_mib_ip_forward_row2, log_rows, on_table, handle_initial, received, is_change, handle, consume,
}

module _ (c : Constants) where
  -- The prefix 0.0.0.0/0 or ::/0.
  abbrev pub is_default : IpAddressPrefix → Bool
  is_default p =
      (p.prefix_length == 0)
      && (if p.prefix.family == c.af_inet
          then c.inet4_addr p.prefix.data_bytes == 0
          else (p.prefix.family == c.af_inet6) && (c.inet6_addr p.prefix.data_bytes == 0))

  is_left_out-default :
      (p : IpAddressPrefix) (only : Bool)
      → is_left_out only (prefix_from_ip_address_prefix c p) ≡ only && not (is_default p)
  unfolding is_left_out prefix_from_ip_address_prefix prefix_from ip_from_sockaddr_inet same_zone
  is_left_out-default p only = ground arith

  abbrev pub shown : MibIpForwardRow2 → Effect
  shown row =
      logs_row row.interface_luid row.interface_index
        (prefix_from_ip_address_prefix c row.destination_prefix)
        (ip_from_sockaddr_inet c row.next_hop) (numbers_of row)

  -- The rows of a table that are asked for.
  abbrev pub asked_for : Bool → List MibIpForwardRow2 → List Effect
  asked_for all [] = []
  asked_for all (row ∷ rows) =
      if all || is_default row.destination_prefix
      then shown row ∷ asked_for all rows
      else asked_for all rows

  -- What is done with the answer to a request for the table.
  abbrev pub dump : Bool → Result ℕ (List MibIpForwardRow2) → List Effect
  dump all (err e) = logs_no_table e ∷ []
  dump all (ok rows) = asked_for all rows ++ frees_table ∷ []

  abbrev pub is_initial : ℕ → Bool
  is_initial type = not (is_change c type) && (type == c.mib_initial_notification)

  -- None of the notifications is an initial one.
  abbrev pub NoInitial : List (System × Notification) → Type 0
  NoInitial [] = Unit
  NoInitial ((sys, n) ∷ ns) = (is_initial n.notification_type ≡ false) × NoInitial ns

  log_row-asked_for :
      (all : Bool) (row : MibIpForwardRow2)
      → log_mib_ip_forward_row2 c row (not all)
        ≡ (if all || is_default row.destination_prefix then shown row ∷ [] else [])
  unfolding log_mib_ip_forward_row2
  log_row-asked_for all row = ground (arith, is_left_out-default row.destination_prefix (not all))

  pub log_rows-asked_for :
      (all : Bool) (rows : List MibIpForwardRow2) → log_rows c all rows ≡ asked_for all rows
  unfolding log_rows
  log_rows-asked_for all [] = refl
  log_rows-asked_for all (row ∷ rows) =
      ground (arith, log_row-asked_for all row, log_rows-asked_for all rows)

  on_table-dump :
      (all : Bool) (answer : Result ℕ (List MibIpForwardRow2))
      → on_table c all answer ≡ dump all answer
  unfolding on_table
  on_table-dump all (err e) = refl
  on_table-dump all (ok rows) = ap (λ l. l ++ frees_table ∷ []) (log_rows-asked_for all rows)

  pub handle-not-initial :
      (all handled : Bool) (sys : System) (n : Notification)
      → is_initial n.notification_type ≡ false
      → (handle c all handled sys n).0 ≡ handled
  unfolding handle
  handle-not-initial all handled sys n h = ground arith

  pub handle-initial :
      (all handled : Bool) (sys : System) (n : Notification)
      → is_initial n.notification_type ≡ true
      → handle c all handled sys n ≡ (true, received c n ∷ handle_initial c all handled sys)
  unfolding handle
  handle-initial all handled sys n h = ground arith

  pub consume-NoInitial :
      (all handled : Bool) (ns : List (System × Notification))
      → NoInitial ns
      → (consume c all handled ns).0 ≡ handled
  unfolding consume
  consume-NoInitial all handled [] h = refl
  consume-NoInitial all handled ((sys, n) ∷ ns) h =
      ap (λ b. (consume c all b ns).0) (handle-not-initial all handled sys n h.0)
      ∙ consume-NoInitial all handled ns h.1

  pub consume-append :
      (all handled : Bool) (ns ms : List (System × Notification))
      → (consume c all handled (ns ++ ms)).1
        ≡ (consume c all handled ns).1 ++ (consume c all (consume c all handled ns).0 ms).1
  unfolding consume
  consume-append all handled [] ms = refl
  consume-append all handled ((sys, n) ∷ ns) ms =
      simp (list_laws, consume-append all (handle c all handled sys n).0 ns ms)

  -- The flag goes up with the first initial notification. The notifications before it are handled
  -- with the flag down, those behind it with the flag up, and for itself the table is fetched and
  -- the rows of it are logged in order, all of them with `dumpAll` and else those of 0.0.0.0/0 and
  -- ::/0, and the table is freed; if it cannot be fetched, that is logged, and nothing else is done.
  pub consume-dump :
      (all : Bool) (before after : List (System × Notification)) (sys : System) (n : Notification)
      → NoInitial before
      → is_initial n.notification_type ≡ true
      → (consume c all false (before ++ (sys, n) ∷ after)).1
        ≡ (consume c all false before).1
          ++ (received c n ∷ (gets_table ∷ dump all sys.get_ip_forward_table2)
              ++ (consume c all true after).1)
  unfolding consume handle_initial
  consume-dump all before after sys n none init =
      let go : Bool → List (System × Notification) → List Effect = λ b ns. (consume c all b ns).1 in
      consume-append all false before ((sys, n) ∷ after)
      ∙ ap (λ b. go false before ++ go b ((sys, n) ∷ after))
          (consume-NoInitial all false before none)
      ∙ ap (λ r. go false before ++ (r.1 ++ go r.0 after)) (handle-initial all false sys n init)
      ∙ ap (λ l. go false before ++ (received c n ∷ (gets_table ∷ l) ++ go true after))
          (on_table-dump all sys.get_ip_forward_table2)
