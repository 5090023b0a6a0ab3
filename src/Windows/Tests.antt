-- ===== src/Windows/Tests.antt =====
-- Runs of the model of route/cmd/route/main_windows.go, and its theorems at concrete inputs. A test
-- address is the first number of its data.
use cubic_go_playground.Prelude.{ℕ, ◌≡◌, refl, true, false, [], ◌∷◌, ◌++◌, none, some, Bytes}
use cubic_go_playground.Prelude.Result.{err, ok}
use cubic_go_playground.Ip.Endpoint.{same_zone}
use cubic_go_playground.Ip.Netip.{prefix_from}
use cubic_go_playground.Windows.Rows.{
  Sockaddr, MibIpForwardRow2, Constants, ip_from_sockaddr_inet, prefix_from_ip_address_prefix,
  is_left_out,
}
use cubic_go_playground.Windows.Handler.{
  Notification, System, gets_table, frees_table, logs_subsequent_initial, logs_no_table, notify,
  row_of, received, on_table, log_rows, log_mib_ip_forward_row2, handle_initial, handle, consume,
}
use cubic_go_playground.Windows.Handled.{shown, dump, consume-dump}

abbrev first : Bytes → ℕ
first [] = 0
first (n ∷ b) = n

abbrev constants : Constants
constants = record {
  af_inet = 2;
  af_inet6 = 23;
  inet4_addr = first;
  inet6_addr = first;
  mib_parameter_notification = 0;
  mib_add_instance = 1;
  mib_delete_instance = 2;
  mib_initial_notification = 3;
  error_not_found = 1168;
}

abbrev inet : ℕ → Sockaddr
inet n = record { family = 2; data_bytes = n ∷ [] }

-- A route to the prefix by the gateway 1.
abbrev route : ℕ → ℕ → MibIpForwardRow2
route n bits = record (row_of (notify none 0)) {
  destination_prefix = record { prefix = inet n; prefix_length = bits };
  next_hop = inet 1;
  metric = 25;
}

abbrev system : System
system = record {
  get_ip_forward_entry2 = λ row. err 1168;
  get_ip_forward_table2 = ok (route 0 0 ∷ route 167772160 8 ∷ []);
}

abbrev failing : System
failing = record system { get_ip_forward_table2 = err 8 }

abbrev change : Notification
change = notify (some (route 167772160 8)) 2

abbrev initial : Notification
initial = notify none 3

-- Of the two routes of the table one is a default route.
consume_both_initials :
    (consume constants false false ((system, initial) ∷ (system, initial) ∷ [])).1
    ≡ received constants initial
      ∷ gets_table
      ∷ shown constants (route 0 0)
      ∷ frees_table
      ∷ received constants initial
      ∷ logs_subsequent_initial
      ∷ []
unfolding consume handle handle_initial on_table log_rows log_mib_ip_forward_row2 is_left_out
    prefix_from_ip_address_prefix prefix_from ip_from_sockaddr_inet same_zone notify
consume_both_initials = refl

-- If the table cannot be fetched at first, it is never logged.
consume_without_table :
    (consume constants true false ((failing, initial) ∷ (system, initial) ∷ [])).1
    ≡ received constants initial
      ∷ gets_table
      ∷ logs_no_table 8
      ∷ received constants initial
      ∷ logs_subsequent_initial
      ∷ []
unfolding consume handle handle_initial on_table notify
consume_without_table = refl

consume-dump_example :
    (consume constants false false
      ((system, change) ∷ [] ++ (system, initial) ∷ (system, initial) ∷ [])).1
    ≡ (consume constants false false ((system, change) ∷ [])).1
      ++ (received constants initial
            ∷ (gets_table ∷ dump constants false system.get_ip_forward_table2)
          ++ (consume constants false true ((system, initial) ∷ [])).1)
unfolding notify
consume-dump_example =
    consume-dump constants false ((system, change) ∷ []) ((system, initial) ∷ []) system initial
      (refl, tt) refl
