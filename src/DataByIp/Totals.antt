-- ===== src/DataByIp/Totals.antt =====
-- What `main` of ssgodatabyip/ssgodatabyip.go keeps for the events that it decodes. The numbers of
-- an event are `uint64`, and so are the sums. Addresses are those of net/netip.
use cubic_go_playground.Prelude.{
  ℕ, ◌+◌, ◌%◌, ◌^◌, Bool, not, Option, none, some, List, [], ◌∷◌, ◌==◌, if◌then◌else◌,
}
use cubic_go_playground.GoMap.{lookup, insert}
use cubic_go_playground.Ip.Endpoint.{Zone, z0, Addr, AddrPort, same_zone}
use native.Mathlib.Decide.{ℕ_discrete}

unfoldable pub Zone-discrete : Discrete Zone
Zone-discrete = hlevel (ℕ_discrete)

unfoldable pub Addr-discrete : Discrete Addr
Addr-discrete = hlevel (ℕ_discrete, Zone-discrete)

-- `Event` of the source.
pub record Event : Type 0 where
  pub client_address : AddrPort
  pub client_session_id : ℕ
  pub nl2r : ℕ
  pub nr2l : ℕ
  pub payload_bytes_sent : ℕ

pub record Totals : Type 0 where
  pub addr_by_csid : List (ℕ × Addr)
  pub bytes_by_ip : List (Addr × ℕ)

abbrev pub u64 : ℕ → ℕ
u64 n = n % 2 ^ 64

-- `Addr.IsValid`.
abbrev pub is_valid : Addr → Bool
is_valid a = not (same_zone a.z z0)

abbrev pub no_addr : Addr
no_addr = record { ip = 0; z = z0 }

-- `m[key]` for a missing key is the zero value.
abbrev pub get_or : {V : Type 0} → V → Option V → V
get_or zero_value none = zero_value
get_or zero_value (some v) = v

unfoldable pub bytes_of : Event → ℕ
bytes_of e = u64 (u64 (e.nl2r + e.nr2l) + e.payload_bytes_sent)

-- The address that an event is counted for, and what is remembered of its session.
unfoldable pub resolve_session : Totals → Event → Addr × List (ℕ × Addr)
resolve_session s e =
    let addr = e.client_address.addr in
    if e.client_session_id == 0
    then (addr, s.addr_by_csid)
    else if is_valid addr
    then (addr, insert ℕ_discrete e.client_session_id addr s.addr_by_csid)
    else (get_or no_addr (lookup ℕ_discrete e.client_session_id s.addr_by_csid), s.addr_by_csid)

-- The body of the loop, behind `Decode`.
unfoldable pub add_event : Totals → Event → Totals
add_event s e =
    let (addr, sessions) = resolve_session s e in
    if is_valid addr
    then record {
      addr_by_csid = sessions;
      bytes_by_ip =
          insert Addr-discrete addr
            (u64 (get_or 0 (lookup Addr-discrete addr s.bytes_by_ip) + bytes_of e)) s.bytes_by_ip;
    }
    else record s { addr_by_csid = sessions }

unfoldable pub no_totals : Totals
no_totals = record { addr_by_csid = []; bytes_by_ip = [] }

unfoldable pub add_events : Totals → List Event → Totals
add_events s [] = s
add_events s (e ∷ es) = add_events (add_event s e) es
