-- ===== src/Windows/Handler.antt =====
-- The notifications of route/cmd/route/main_windows.go. What the handler does is a list of effects:
-- the calls of the system and what is logged. Each notification is handled with the answers of the
-- system at that time.
use cubic_go_playground.Prelude.{
  ℕ, Bool, true, false, not, ◌||◌, List, [], ◌∷◌, ◌++◌, Option, none, some, ◌==◌, if◌then◌else◌,
}
use cubic_go_playground.Prelude.Result.{Result, err, ok}
use cubic_go_playground.Ip.Endpoint.{Addr}
use cubic_go_playground.Ip.Netip.{Prefix}
use cubic_go_playground.Windows.Rows.{
  Sockaddr, IpAddressPrefix, MibIpForwardRow2, Constants, ip_from_sockaddr_inet,
  prefix_from_ip_address_prefix, is_left_out,
}

-- `mibIpForwardRow2Notification`.
pub record Notification : Type 0 where
  pub interface_luid : ℕ
  pub interface_index : ℕ
  pub destination_prefix : IpAddressPrefix
  pub next_hop : Sockaddr
  pub notification_type : ℕ

pub record System : Type 0 where
  pub get_ip_forward_entry2 : MibIpForwardRow2 → Result ℕ MibIpForwardRow2
  pub get_ip_forward_table2 : Result ℕ (List MibIpForwardRow2)

pub data Effect : Type 0 where
  gets_entry : MibIpForwardRow2 → Effect
  gets_table : Effect
  frees_table : Effect
  logs_received : (luid index : ℕ) → Prefix → Addr → (type : ℕ) → Effect
  logs_row : (luid index : ℕ) → Prefix → Addr → List ℕ → Effect
  logs_no_longer_exists : Effect
  logs_no_entry : ℕ → Effect
  logs_subsequent_initial : Effect
  logs_no_table : ℕ → Effect
  logs_unknown_type : Effect

abbrev pub no_sockaddr : Sockaddr
no_sockaddr = record { family = 0; data_bytes = [] }

abbrev pub no_prefix : IpAddressPrefix
no_prefix = record { prefix = no_sockaddr; prefix_length = 0 }

-- What the callback sends.
unfoldable pub notify : Option MibIpForwardRow2 → ℕ → Notification
notify none type = record {
  interface_luid = 0;
  interface_index = 0;
  destination_prefix = no_prefix;
  next_hop = no_sockaddr;
  notification_type = type;
}
notify (some row) type = record {
  interface_luid = row.interface_luid;
  interface_index = row.interface_index;
  destination_prefix = row.destination_prefix;
  next_hop = row.next_hop;
  notification_type = type;
}

-- The row that is to be completed.
abbrev pub row_of : Notification → MibIpForwardRow2
row_of n = record {
  interface_luid = n.interface_luid;
  interface_index = n.interface_index;
  destination_prefix = n.destination_prefix;
  next_hop = n.next_hop;
  site_prefix_length = 0;
  valid_lifetime = 0;
  preferred_lifetime = 0;
  metric = 0;
  protocol = 0;
  loopback = 0;
  autoconfigure_address = 0;
  publish = 0;
  immortal = 0;
  age = 0;
  origin = 0;
}

-- The numbers that are logged of a row behind its addresses.
abbrev pub numbers_of : MibIpForwardRow2 → List ℕ
numbers_of row =
    row.site_prefix_length ∷ row.valid_lifetime ∷ row.preferred_lifetime ∷ row.metric ∷ row.protocol
    ∷ row.loopback ∷ row.autoconfigure_address ∷ row.publish ∷ row.immortal ∷ row.age ∷ row.origin
    ∷ []

module _ (c : Constants) where
  unfoldable pub log_mib_ip_forward_row2 : MibIpForwardRow2 → Bool → List Effect
  log_mib_ip_forward_row2 row default_only =
      let destination_prefix = prefix_from_ip_address_prefix c row.destination_prefix in
      if is_left_out default_only destination_prefix
      then []
      else logs_row row.interface_luid row.interface_index destination_prefix
          (ip_from_sockaddr_inet c row.next_hop) (numbers_of row)
        ∷ []

  -- The case of a change: what is done with the answer of the system, and the call.
  unfoldable pub on_entry : Result ℕ MibIpForwardRow2 → List Effect
  on_entry (err e) =
      if e == c.error_not_found then logs_no_longer_exists ∷ [] else logs_no_entry e ∷ []
  on_entry (ok row) = log_mib_ip_forward_row2 row false

  unfoldable pub handle_change : System → Notification → List Effect
  handle_change sys n = gets_entry (row_of n) ∷ on_entry (sys.get_ip_forward_entry2 (row_of n))

  abbrev pub received : Notification → Effect
  received n =
      logs_received n.interface_luid n.interface_index
        (prefix_from_ip_address_prefix c n.destination_prefix) (ip_from_sockaddr_inet c n.next_hop)
        n.notification_type

  abbrev pub is_change : ℕ → Bool
  is_change type =
      (type == c.mib_parameter_notification)
      || ((type == c.mib_add_instance) || (type == c.mib_delete_instance))

module _ (c : Constants) (dump_all : Bool) where
  unfoldable pub log_rows : List MibIpForwardRow2 → List Effect
  log_rows [] = []
  log_rows (row ∷ rows) = log_mib_ip_forward_row2 c row (not dump_all) ++ log_rows rows

  -- The case of an initial notification, with the flag.
  unfoldable pub on_table : Result ℕ (List MibIpForwardRow2) → List Effect
  on_table (err e) = logs_no_table e ∷ []
  on_table (ok rows) = log_rows rows ++ frees_table ∷ []

  unfoldable pub handle_initial : Bool → System → List Effect
  handle_initial true sys = logs_subsequent_initial ∷ []
  handle_initial false sys = gets_table ∷ on_table sys.get_ip_forward_table2

  -- `handleMibIpForwardRow2Notification`: the flag `initialNotificationHandled` from then on, and
  -- what is done.
  unfoldable pub handle : Bool → System → Notification → Bool × List Effect
  handle handled sys n =
      if is_change c n.notification_type
      then (handled, received c n ∷ handle_change c sys n)
      else if n.notification_type == c.mib_initial_notification
      then (true, received c n ∷ handle_initial handled sys)
      else (handled, received c n ∷ logs_unknown_type ∷ [])

  -- The consumer of the channel, and the value that the flag has behind it.
  unfoldable pub consume : Bool → List (System × Notification) → Bool × List Effect
  consume handled [] = (handled, [])
  consume handled ((sys, n) ∷ rest) =
      let (handled', effects) = handle handled sys n in
      let (last, more) = consume handled' rest in (last, effects ++ more)
