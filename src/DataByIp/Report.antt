-- ===== src/DataByIp/Report.antt =====
-- How `main` of ssgodatabyip/ssgodatabyip.go ends: it sorts the totals and prints them, or it
-- exits if an entry is not decoded. The decoder gives a list of events and how it ended; in which
-- order a Go map is ranged over is a parameter, and so is how net/netip prints an address. A
-- `DataUsage` is the pair of its fields. `SortFunc` says nothing of the order of equals, which
-- stay here as they are.
use cubic_go_playground.Prelude.{ℕ, List, [], ◌∷◌, ◌++◌, Bytes, itoa, leb, if◌then◌else◌}
use cubic_go_playground.Ip.Endpoint.{Addr}
use cubic_go_playground.DataByIp.Totals.{Event, no_totals, add_events}

abbrev pub DataUsage : Type 0
DataUsage = Addr × ℕ

pub data DecodeEnd : Type 0 where
  at_eof : DecodeEnd
  failed : DecodeEnd

pub data Exit : Type 0 where
  wrote : Bytes → Exit
  exit_1 : Exit

-- In front of the first one that is no larger.
unfoldable pub place : DataUsage → List DataUsage → List DataUsage
place u [] = u ∷ []
place u (v ∷ vs) = if leb v.1 u.1 then u ∷ v ∷ vs else v ∷ place u vs

unfoldable pub sort_usage : List DataUsage → List DataUsage
unfolding place
sort_usage [] = []
sort_usage (u ∷ us) = place u (sort_usage us)

module _ (append_to : Addr → Bytes → Bytes) where
  -- The loop over the sorted totals. Twenty digits are enough for a `uint64`.
  unfoldable pub print_usage : List DataUsage → Bytes → Bytes
  print_usage [] output = output
  print_usage (u ∷ us) output =
      print_usage us ((append_to u.0 output ++ b'\t' ∷ itoa 20 u.1 []) ++ b'\n' ∷ [])

  unfoldable pub main : (List DataUsage → List DataUsage) → List Event → DecodeEnd → Exit
  main range_over events failed = exit_1
  main range_over events at_eof =
      wrote (print_usage (sort_usage (range_over (add_events no_totals events).bytes_by_ip)) [])
