-- ===== src/DataByIp/Sorted.antt =====
-- The report of ssgodatabyip: its order, and what it lists.
use cubic_go_playground.Prelude.{
  ℕ, ◌≤◌, ◌≡◌, refl, ap, ◌∙◌, List, [], ◌∷◌, none, some, Bytes, if◌then◌else◌, arith, ite,
}
use cubic_go_playground.GoMap.{lookup, Distinct}
use cubic_go_playground.Ip.Endpoint.{Addr}
use cubic_go_playground.DataByIp.Totals.{Addr-discrete, Event, u64, no_totals, add_events}
use cubic_go_playground.DataByIp.Charge.{listed, charge, lookup-add_events, add_events-Distinct}
use cubic_go_playground.DataByIp.Report.{
  DataUsage, at_eof, failed, wrote, exit_1, place, sort_usage, print_usage, main,
}

-- Each is at least as large as those behind it.
abbrev pub Above : ℕ → List DataUsage → Type 0
Above n [] = Unit
Above n (v ∷ vs) = (v.1 ≤ n) × Above n vs

abbrev pub Descending : List DataUsage → Type 0
Descending [] = Unit
Descending (u ∷ us) = Above u.1 us × Descending us

Above-le : (n m : ℕ) (us : List DataUsage) → n ≤ m → Above n us → Above m us
Above-le n m [] le h = tt
Above-le n m (u ∷ us) le h = (omega arith, Above-le n m us le h.1)

place-Above :
    (n : ℕ) (u : DataUsage) (us : List DataUsage) → u.1 ≤ n → Above n us → Above n (place u us)
unfolding place
place-Above n u [] le h = (le, tt)
place-Above n u (v ∷ vs) le h = ground (arith, place-Above n u vs)

place-Descending : (u : DataUsage) (us : List DataUsage) → Descending us → Descending (place u us)
unfolding place
place-Descending u [] h = (tt, tt)
place-Descending u (v ∷ vs) h =
    ground (arith, Above-le v.1 u.1 vs, place-Above v.1 u vs, place-Descending u vs)

sort_usage-Descending : (us : List DataUsage) → Descending (sort_usage us)
unfolding sort_usage
sort_usage-Descending [] = tt
sort_usage-Descending (u ∷ us) = place-Descending u (sort_usage us) (sort_usage-Descending us)

abbrev dec : Discrete Addr
dec = Addr-discrete

lookup-place :
    (k : Addr) (u : DataUsage) (us : List DataUsage)
    → lookup dec u.0 us ≡ none
    → lookup dec k (place u us) ≡ lookup dec k (u ∷ us)
unfolding place lookup
lookup-place k u [] h = refl
lookup-place k u (v ∷ vs) h = ground (arith, lookup-place k u vs)

place-Distinct :
    (u : DataUsage) (us : List DataUsage) → Distinct dec (u ∷ us) → Distinct dec (place u us)
unfolding place lookup
place-Distinct u [] h = h
place-Distinct u (v ∷ vs) h = ground (arith, lookup-place v.0 u vs, place-Distinct u vs)

sort_usage-lookup :
    (us : List DataUsage)
    → Distinct dec us
    → Distinct dec (sort_usage us) × ((k : Addr) → lookup dec k (sort_usage us) ≡ lookup dec k us)
unfolding sort_usage lookup
sort_usage-lookup [] h = (tt, λ k. refl)
sort_usage-lookup (u ∷ us) h =
    let (d, same) = sort_usage-lookup us h.1 in
    let new : lookup dec u.0 (sort_usage us) ≡ none = same u.0 ∙ h.0 in
    (
      place-Distinct u (sort_usage us) (new, d),
      λ k. lookup-place k u (sort_usage us) new ∙ ap (λ o. ite (dec u.0 k) (some u.1) o) (same k),
    )

-- Ranging over a map gives each of its entries once.
abbrev pub RangesOver : (List DataUsage → List DataUsage) → Type 0
RangesOver range_over =
    (m : List DataUsage)
    → Distinct dec m
    → Distinct dec (range_over m) × ((k : Addr) → lookup dec k (range_over m) ≡ lookup dec k m)

-- At the end of the log the report lists, from the largest to the smallest and each once, the
-- addresses that an event is charged to, with what these events moved modulo 2 ^ 64. An event is
-- charged to its own valid address, or else to the one that its session showed last. If an entry
-- is not decoded, nothing is written.
pub main-charge :
    (append_to : Addr → Bytes → Bytes) (range_over : List DataUsage → List DataUsage)
    (es : List Event)
    → RangesOver range_over
    → ((usage : List DataUsage) × (main append_to range_over es at_eof
          ≡ wrote (print_usage append_to usage []))
        × Descending usage
        × Distinct dec usage
        × ((ip : Addr)
            → lookup dec ip usage
              ≡ (if listed [] es ip then some (u64 (charge [] es ip)) else none)))
      × (main append_to range_over es failed ≡ exit_1)
unfolding main
main-charge append_to range_over es ranges =
    let m : List DataUsage = (add_events no_totals es).bytes_by_ip in
    let (d, same) = ranges m (add_events-Distinct es) in
    let (d', same') = sort_usage-lookup (range_over m) d in
    (
      (
        sort_usage (range_over m),
        refl,
        sort_usage-Descending (range_over m),
        d',
        λ ip. same' ip ∙ same ip ∙ lookup-add_events es ip,
      ),
      refl,
    )
