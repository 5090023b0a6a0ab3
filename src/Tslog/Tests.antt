-- ===== src/Tslog/Tests.antt =====
-- Runs of the model of logging/tslog/tslog.go, and its theorems at concrete inputs. A test handler is
-- the list of what it was made of.
use cubic_go_playground.Prelude.{
  ◌≡◌, refl, true, false, List, [], ◌∷◌, ◌++◌, none, some, Bytes, codes, pos, itoa, if◌then◌else◌,
}
use cubic_go_playground.Ip.Endpoint.{Addr, AddrPort, same_zone}
use cubic_go_playground.Ip.Netip.{Prefix, prefix_from, addr_from4}
use cubic_go_playground.Tslog.Attrs.{string, uint, prefix, prefix_marshal_text}
use cubic_go_playground.Tslog.Logger.{
  Config, Handlers, handles, le, level_error, new_handler, new_logger_with_handler, new_logger,
  with_attrs, with_group, enabled, write, log, info, error,
}
use cubic_go_playground.Tslog.Written.{
  Derivation, attrs, group, derived, handler_with, written, log-written,
}

abbrev handlers : Handlers (List Bytes)
handlers = record {
  new_text_handler = λ level. codes "text" ∷ [];
  new_json_handler = λ level. codes "json" ∷ [];
  new_tint_handler = λ level no_color. codes "tint" ∷ [];
  with_attrs = λ h attrs. codes "attrs" ∷ h;
  with_group = λ h group. group ∷ h;
  handle = λ h r. none;
}

abbrev config : Config
config = record {
  level = pos 4;
  no_color = false;
  no_time = true;
  pretty_json = false;
  use_text_handler = false;
  use_json_handler = true;
}

abbrev derivations : List Derivation
derivations = group (codes "source") ∷ attrs (uint (codes "n") 1 ∷ []) ∷ []

error_written :
    error handlers (derived handlers (new_logger handlers config) derivations) 7 (codes "no") []
    ≡ handles
        (codes "attrs" ∷ codes "source" ∷ codes "json" ∷ [])
        (record { time = none; level = level_error; msg = codes "no"; attrs = [] })
      ∷ []
unfolding error log write enabled new_logger new_logger_with_handler new_handler with_attrs
    with_group
error_written = refl

info_below : info handlers (new_logger handlers config) 7 (codes "no") [] ≡ []
unfolding info log enabled new_logger new_logger_with_handler
info_below = refl

log-written_example :
    log handlers
      (derived handlers (new_logger handlers config) derivations)
      7
      (pos 8)
      (codes "no")
      []
    ≡ (if le config.level (pos 8)
        then written handlers
            (handler_with handlers (new_handler handlers config) derivations)
            (record {
              time = if config.no_time then none else some 7;
              level = pos 8;
              msg = codes "no";
              attrs = [];
            })
        else [])
log-written_example = log-written handlers config derivations 7 (pos 8) (codes "no") []

abbrev as_number : Addr → Bytes
as_number a = itoa 39 a.ip []

abbrev with_port : AddrPort → Bytes
with_port a = as_number a.addr ++ b':' ∷ itoa 5 a.port []

-- A prefix of 40 bits of an IPv4 address.
abbrev too_long : Prefix
too_long = prefix_from (addr_from4 1) 40

abbrev localhost : AddrPort
localhost = record { addr = addr_from4 2130706433; port = 53 }

too_long_shown :
    (prefix as_number with_port (codes "p") too_long
      ≡ record { key = codes "p"; value = string [] })
    × (prefix_marshal_text as_number with_port (codes "p") too_long
        ≡ record { key = codes "p"; value = string (codes "invalid Prefix") })
unfolding prefix prefix_marshal_text prefix_from same_zone
too_long_shown = (refl, refl)
