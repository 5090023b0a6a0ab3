-- ===== src/Entry/Tests.antt =====
-- Runs of the model of the flags of route/cmd/route, and its theorem at a concrete input. The handler
-- of a test is its name.
use cubic_go_playground.Prelude.{
  ◌≡◌, refl, true, false, [], ◌∷◌, none, some, Bytes, codes, if◌then◌else◌, pos,
}
use cubic_go_playground.Tslog.Logger.{
  Handlers, handles, new_handler, new_logger, new_logger_with_handler, enabled, write, log, le,
  level_info, level_debug,
}
use cubic_go_playground.Tslog.Written.{written}
use cubic_go_playground.Entry.Flags.{
  default_flags, sets_log_level, sets_log_json, sets_log_kv_pairs, sets_log_no_time, set_flag,
  parse_flags, main_logger,
}
use cubic_go_playground.Entry.Configured.{
  log_level_of, log_no_time_of, last_of, or_else, last_flags, chosen_handler, main_logger-log,
}

abbrev handlers : Handlers Bytes
handlers = record {
  new_text_handler = λ level. codes "text";
  new_json_handler = λ level. codes "json";
  new_tint_handler = λ level no_color. codes "tint";
  with_attrs = λ h attrs. h;
  with_group = λ h group. h;
  handle = λ h r. none;
}

-- Both formats are asked for.
debug_as_text :
    log handlers
      (main_logger handlers
        (sets_log_level level_debug ∷ sets_log_json true ∷ sets_log_kv_pairs true ∷ []))
      7
      level_debug
      (codes "no")
      []
    ≡ handles
        (codes "text")
        (record { time = some 7; level = level_debug; msg = codes "no"; attrs = [] })
      ∷ []
unfolding log write enabled main_logger new_logger new_logger_with_handler new_handler parse_flags
    set_flag
debug_as_text = refl

debug_below : log handlers (main_logger handlers []) 7 level_debug (codes "no") [] ≡ []
unfolding log enabled main_logger new_logger new_logger_with_handler new_handler parse_flags
debug_below = refl

main_logger-log_example :
    log handlers
      (main_logger handlers (sets_log_no_time true ∷ sets_log_no_time false ∷ []))
      7
      (pos 4)
      (codes "no")
      []
    ≡ (if le
          (or_else
            (last_of log_level_of (sets_log_no_time true ∷ sets_log_no_time false ∷ []))
            level_info)
          (pos 4)
        then written handlers
            (chosen_handler handlers
              (last_flags default_flags (sets_log_no_time true ∷ sets_log_no_time false ∷ [])))
            (record {
              time =
                  if or_else
                    (last_of log_no_time_of (sets_log_no_time true ∷ sets_log_no_time false ∷ []))
                    false
                  then none
                  else some 7;
              level = pos 4;
              msg = codes "no";
              attrs = [];
            })
        else [])
main_logger-log_example =
    main_logger-log handlers (sets_log_no_time true ∷ sets_log_no_time false ∷ []) 7 (pos 4)
      (codes "no") []
