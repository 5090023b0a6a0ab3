-- ===== src/DataByIp/Tests.antt =====
-- Runs of the model of ssgodatabyip/ssgodatabyip.go, and its theorems at concrete inputs.
use cubic_go_playground.Prelude.{
  ℕ, ◌+◌, ◌-◌, ◌≡◌, ◌≢◌, ◌⊎◌, refl, ◌<◌, ◌≤◌, List, [], ◌∷◌, ◌++◌, none, some, Bytes, codes, length,
  false, if◌then◌else◌, arith, itoa, replicate,
}
use cubic_go_playground.GoMap.{lookup, insert, Distinct}
use cubic_go_playground.Ip.Endpoint.{z4, Addr, same_zone}
use cubic_go_playground.DataByIp.Totals.{
  Addr-discrete, Zone-discrete, Event, no_addr, u64, add_event, resolve_session, no_totals,
  add_events, bytes_of,
}
use cubic_go_playground.DataByIp.Charge.{listed, charge}
use cubic_go_playground.DataByIp.Report.{
  DataUsage, at_eof, failed, wrote, exit_1, print_usage, main, sort_usage, place,
}
use cubic_go_playground.DataByIp.Sorted.{Descending, RangesOver, main-charge}
use cubic_go_playground.DataByIp.Reader.{
  eof, read_slice, new_event_json_reader, read_loop, read, read_all,
}
use cubic_go_playground.DataByIp.Lines.{json_of}
use cubic_go_playground.DataByIp.Delivered.{read_all-json_of}
use cubic_go_playground.DataByIp.Contract.{read-some}
use native.Mathlib.Decide.{ℕ_discrete}

-- The address and the session, and what was moved.
abbrev event : Addr → ℕ → ℕ → Event
event a session n = record {
  client_address = record { addr = a; port = 443 };
  client_session_id = session;
  nl2r = n;
  nr2l = 0;
  payload_bytes_sent = 1;
}

abbrev host : ℕ → Addr
host n = record { ip = 281470681743360 + n; z = z4 }

-- The last event of session 7 has no address of its own; one event overflows the sum of its host.
abbrev log : List Event
log =
    event (host 1) 0 18446744073709551610
    ∷ event (host 2) 7 20
    ∷ event no_addr 7 30
    ∷ event (host 1) 0 10
    ∷ event no_addr 8 5
    ∷ []

abbrev append_to : Addr → Bytes → Bytes
append_to a output = output ++ itoa 3 (a.ip - 281470681743360) []

abbrev as_inserted : List DataUsage → List DataUsage
as_inserted m = m

main_five_events : main append_to as_inserted log at_eof ≡ wrote (codes "2\t52\n1\t6\n")
unfolding main add_events no_totals add_event resolve_session lookup insert print_usage sort_usage
    place itoa bytes_of Addr-discrete same_zone ℕ_discrete Zone-discrete
main_five_events = refl

abbrev log_text : Bytes
log_text = codes "12:00 {\"n\":1}\nno event\n12:01 {\"n\":2}\n12:02"

-- Buffers of five bytes, which cut both values.
read_all_two_values :
    read_all 131072 (replicate 6 5) (new_event_json_reader log_text)
    ≡ (codes "{\"n\":1}\n{\"n\":2}\n", some eof)
unfolding read_all read read_loop read_slice new_event_json_reader
read_all_two_values = refl

-- A last line without a newline, longer than the buffer: the end of the value is lost.
read_all_cut_off :
    read_all 131072 (replicate 6 5) (new_event_json_reader (codes "{\"n\":1234567}"))
    ≡ (codes "{\"n\":12345", some eof)
unfolding read_all read read_loop read_slice new_event_json_reader
read_all_cut_off = refl

as_inserted-RangesOver : RangesOver as_inserted
as_inserted-RangesOver m d = (d, λ k. refl)

main-charge_example :
    ((usage : List DataUsage) × (main append_to as_inserted log at_eof
        ≡ wrote (print_usage append_to usage []))
      × Descending usage
      × Distinct Addr-discrete usage
      × ((ip : Addr)
          → lookup Addr-discrete ip usage
            ≡ (if listed [] log ip then some (u64 (charge [] log ip)) else none)))
    × (main append_to as_inserted log failed ≡ exit_1)
main-charge_example = main-charge append_to as_inserted log as_inserted-RangesOver

read_all-json_of_example :
    read_all 131072 (replicate 17 5) (new_event_json_reader log_text)
    ≡ (json_of false log_text, some eof)
read_all-json_of_example =
    read_all-json_of 131072 (replicate 17 5) log_text refl refl (ground arith) (omega arith)

read-some_example :
    (length (read 131072 5 (new_event_json_reader log_text)).p ≤ 5)
    × ((◌≡◌ {A = ℕ} 5 0)
        ⊎ (0 < length (read 131072 5 (new_event_json_reader log_text)).p)
        ⊎ ((read 131072 5 (new_event_json_reader log_text)).err ≢ none))
read-some_example = read-some 131072 5 (new_event_json_reader log_text)
