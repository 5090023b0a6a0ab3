-- ===== src/DataByIp/Charge.antt =====
-- Who is charged for an event, told from the events before it alone.
use cubic_go_playground.Prelude.{
  ℕ, ◌+◌, ◌≡◌, ◌≢◌, refl, ap, ◌∙◌, Bool, true, false, ◌&&◌, ◌||◌, Option, none, some, List, [], ◌∷◌,
  ◌==◌, if◌then◌else◌, arith, ite,
}
use cubic_go_playground.GoMap.{lookup, insert, Distinct}
use cubic_go_playground.GoMap.Laws.{lookup-insert, Distinct-insert}
use cubic_go_playground.Ip.Endpoint.{Addr}
use cubic_go_playground.DataByIp.Totals.{
  Addr-discrete, Event, Totals, u64, is_valid, no_addr, get_or, bytes_of, resolve_session,
  add_event, no_totals, add_events,
}
use native.Mathlib.Decide.{ℕ_discrete}

-- The valid address that the session showed last; the newest event stands first.
abbrev pub last_seen : ℕ → List Event → Option Addr
last_seen c [] = none
last_seen c (e ∷ past) =
    let rest = last_seen c past in
    if (e.client_session_id == c) && is_valid e.client_address.addr
    then some e.client_address.addr
    else rest

unfoldable pub owner : List Event → Event → Addr
owner past e =
    if (e.client_session_id == 0) || is_valid e.client_address.addr
    then e.client_address.addr
    else get_or no_addr (last_seen e.client_session_id past)

-- Whether the event is charged to the address.
unfoldable pub is_charged : List Event → Event → Addr → Bool
is_charged past e ip = is_valid (owner past e) && ite (Addr-discrete (owner past e) ip) true false

-- Whether an event is charged to the address, and what all of them moved.
abbrev pub listed : List Event → List Event → Addr → Bool
listed past [] ip = false
listed past (e ∷ es) ip = is_charged past e ip || listed (e ∷ past) es ip

abbrev pub charge : List Event → List Event → Addr → ℕ
charge past [] ip = 0
charge past (e ∷ es) ip =
    (if is_charged past e ip then e.nl2r + e.nr2l + e.payload_bytes_sent else 0)
    + charge (e ∷ past) es ip

abbrev Remembers : Totals → List Event → Type 0
Remembers s past = (c : ℕ) → c ≢ 0 → lookup ℕ_discrete c s.addr_by_csid ≡ last_seen c past

resolve_session-owner :
    (s : Totals) (past : List Event) (e : Event)
    → Remembers s past
    → (resolve_session s e).0 ≡ owner past e
unfolding resolve_session owner
resolve_session-owner s past e h = ground (arith, h e.client_session_id)

add_event-Remembers :
    (s : Totals) (past : List Event) (e : Event)
    → Remembers s past
    → Remembers (add_event s e) (e ∷ past)
unfolding add_event resolve_session
add_event-Remembers s past e h c ne = ground (
  arith,
  h c,
  lookup-insert ℕ_discrete c e.client_session_id e.client_address.addr s.addr_by_csid,
)

-- A total with what is added to it.
abbrev plus : Option ℕ → Bool → ℕ → Option ℕ
plus o false n = o
plus o true n = some (u64 (get_or 0 o + n))

lookup-credit :
    (m : List (Addr × ℕ)) (a ip : Addr) (n r p : ℕ)
    → lookup Addr-discrete ip (
        insert Addr-discrete a
          (u64 (get_or 0 (lookup Addr-discrete a m) + u64 (u64 (n + r) + p)))
          m)
      ≡ plus (lookup Addr-discrete ip m) (ite (Addr-discrete a ip) true false) (n + r + p)
lookup-credit m a ip n r p =
    lookup-insert Addr-discrete ip a
      (u64 (get_or 0 (lookup Addr-discrete a m) + u64 (u64 (n + r) + p))) m
    ∙ ground arith

add_event-plus :
    (s : Totals) (past : List Event) (e : Event) (ip : Addr)
    → Remembers s past
    → lookup Addr-discrete ip (add_event s e).bytes_by_ip
      ≡ plus
          (lookup Addr-discrete ip s.bytes_by_ip)
          (is_charged past e ip)
          (e.nl2r + e.nr2l + e.payload_bytes_sent)
unfolding add_event is_charged bytes_of
add_event-plus s past e ip h = ground (
  arith,
  resolve_session-owner s past e h,
  lookup-credit s.bytes_by_ip (owner past e) ip e.nl2r e.nr2l e.payload_bytes_sent,
)

charge_unlisted :
    (past es : List Event) (ip : Addr) → listed past es ip ≡ false → charge past es ip ≡ 0
charge_unlisted past [] ip h = refl
charge_unlisted past (e ∷ es) ip h = ground (arith, charge_unlisted (e ∷ past) es ip)

plus-plus :
    (o : Option ℕ) (l k : Bool) (n m : ℕ)
    → (k ≡ false → m ≡ 0)
    → plus (plus o l n) k m ≡ plus o (l || k) ((if l then n else 0) + m)
plus-plus o l k n m h = ground arith

add_events-plus :
    (s : Totals) (past es : List Event) (ip : Addr)
    → Remembers s past
    → lookup Addr-discrete ip (add_events s es).bytes_by_ip
      ≡ plus (lookup Addr-discrete ip s.bytes_by_ip) (listed past es ip) (charge past es ip)
unfolding add_events
add_events-plus s past [] ip h = refl
add_events-plus s past (e ∷ es) ip h =
    add_events-plus (add_event s e) (e ∷ past) es ip (add_event-Remembers s past e h)
    ∙ ap (λ o. plus o (listed (e ∷ past) es ip) (charge (e ∷ past) es ip))
        (add_event-plus s past e ip h)
    ∙ plus-plus (lookup Addr-discrete ip s.bytes_by_ip) (is_charged past e ip)
        (listed (e ∷ past) es ip) (e.nl2r + e.nr2l + e.payload_bytes_sent) (charge (e ∷ past) es ip)
        (charge_unlisted (e ∷ past) es ip)

pub lookup-add_events :
    (es : List Event) (ip : Addr)
    → lookup Addr-discrete ip (add_events no_totals es).bytes_by_ip
      ≡ (if listed [] es ip then some (u64 (charge [] es ip)) else none)
unfolding no_totals lookup
lookup-add_events es ip = add_events-plus no_totals [] es ip (λ c ne. refl) ∙ ground arith

add_event-Distinct :
    (s : Totals) (e : Event)
    → Distinct Addr-discrete s.bytes_by_ip
    → Distinct Addr-discrete (add_event s e).bytes_by_ip
unfolding add_event
add_event-Distinct s e h = ground (
  arith,
  Distinct-insert Addr-discrete (resolve_session s e).0
      (u64 (get_or 0 (lookup Addr-discrete (resolve_session s e).0 s.bytes_by_ip) + bytes_of e))
      s.bytes_by_ip h,
)

from-Distinct :
    (s : Totals) (es : List Event)
    → Distinct Addr-discrete s.bytes_by_ip
    → Distinct Addr-discrete (add_events s es).bytes_by_ip
unfolding add_events
from-Distinct s [] h = h
from-Distinct s (e ∷ es) h = from-Distinct (add_event s e) es (add_event-Distinct s e h)

pub add_events-Distinct :
    (es : List Event) → Distinct Addr-discrete (add_events no_totals es).bytes_by_ip
unfolding no_totals
add_events-Distinct es = from-Distinct no_totals es tt
