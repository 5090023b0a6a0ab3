-- ===== src/Entry/Configured.antt =====
-- How the flags of route/cmd/route configure its logger.
use cubic_go_playground.Prelude.{
  ℕ, ◌≡◌, refl, sym, ap, ◌∙◌, Bool, false, List, [], ◌∷◌, Option, none, some, Bytes, if◌then◌else◌,
  ℤ, arith,
}
use cubic_go_playground.Tslog.Attrs.{Attr}
use cubic_go_playground.Tslog.Logger.{Handlers, le, level_info, new_handler, log}
use cubic_go_playground.Tslog.Written.{written, log-written}
use cubic_go_playground.Entry.Flags.{
  CommandFlags, default_flags, Argument, sets_dump_all, sets_log_no_color, sets_log_no_time,
  sets_log_kv_pairs, sets_log_json, sets_log_level, set_flag, parse_flags, log_cfg, main_logger,
}

-- The value that an argument gives a flag, and the last one that any gives it.
abbrev pub dump_all_of : Argument → Option Bool
dump_all_of (sets_dump_all v) = some v
dump_all_of _ = none

abbrev pub log_no_color_of : Argument → Option Bool
log_no_color_of (sets_log_no_color v) = some v
log_no_color_of _ = none

abbrev pub log_no_time_of : Argument → Option Bool
log_no_time_of (sets_log_no_time v) = some v
log_no_time_of _ = none

abbrev pub log_kv_pairs_of : Argument → Option Bool
log_kv_pairs_of (sets_log_kv_pairs v) = some v
log_kv_pairs_of _ = none

abbrev pub log_json_of : Argument → Option Bool
log_json_of (sets_log_json v) = some v
log_json_of _ = none

abbrev pub log_level_of : Argument → Option ℤ
log_level_of (sets_log_level v) = some v
log_level_of _ = none

abbrev pub last_of : {A : Type 0} → (Argument → Option A) → List Argument → Option A
last_of f [] = none
last_of f (a ∷ arguments) = elim (last_of f arguments) [ some v ↦ some v | none ↦ f a ]

abbrev pub or_else : {A : Type 0} → Option A → A → A
or_else none d = d
or_else (some v) d = v

or_else-last_of :
    {A : Type 0} (f : Argument → Option A) (a : Argument) (arguments : List Argument) (d : A)
    → or_else (last_of f (a ∷ arguments)) d ≡ or_else (last_of f arguments) (or_else (f a) d)
or_else-last_of f a arguments d =
    elim (last_of f arguments)
      as (λ o. or_else (elim o [ some v ↦ some v | none ↦ f a ]) d ≡ or_else o (or_else (f a) d)) [
        | none ↦ refl
        | some v ↦ refl
      ]

-- The flags by the last values.
abbrev pub last_flags : CommandFlags → List Argument → CommandFlags
last_flags flags arguments = record {
  dump_all = or_else (last_of dump_all_of arguments) flags.dump_all;
  log_no_color = or_else (last_of log_no_color_of arguments) flags.log_no_color;
  log_no_time = or_else (last_of log_no_time_of arguments) flags.log_no_time;
  log_kv_pairs = or_else (last_of log_kv_pairs_of arguments) flags.log_kv_pairs;
  log_json = or_else (last_of log_json_of arguments) flags.log_json;
  log_level = or_else (last_of log_level_of arguments) flags.log_level;
}

abbrev given : Argument → CommandFlags → CommandFlags
given a flags = record {
  dump_all = or_else (dump_all_of a) flags.dump_all;
  log_no_color = or_else (log_no_color_of a) flags.log_no_color;
  log_no_time = or_else (log_no_time_of a) flags.log_no_time;
  log_kv_pairs = or_else (log_kv_pairs_of a) flags.log_kv_pairs;
  log_json = or_else (log_json_of a) flags.log_json;
  log_level = or_else (log_level_of a) flags.log_level;
}

set_flag-given : (a : Argument) (flags : CommandFlags) → set_flag a flags ≡ given a flags
unfolding set_flag
set_flag-given (sets_dump_all v) flags = refl
set_flag-given (sets_log_no_color v) flags = refl
set_flag-given (sets_log_no_time v) flags = refl
set_flag-given (sets_log_kv_pairs v) flags = refl
set_flag-given (sets_log_json v) flags = refl
set_flag-given (sets_log_level v) flags = refl

last_flags-next :
    (a : Argument) (arguments : List Argument) (flags : CommandFlags)
    → last_flags flags (a ∷ arguments) ≡ last_flags (given a flags) arguments
last_flags-next a arguments flags = ground (
  arith,
  or_else-last_of dump_all_of a arguments flags.dump_all,
  or_else-last_of log_no_color_of a arguments flags.log_no_color,
  or_else-last_of log_no_time_of a arguments flags.log_no_time,
  or_else-last_of log_kv_pairs_of a arguments flags.log_kv_pairs,
  or_else-last_of log_json_of a arguments flags.log_json,
  or_else-last_of log_level_of a arguments flags.log_level,
)

parse_flags-last :
    (flags : CommandFlags) (arguments : List Argument)
    → parse_flags flags arguments ≡ last_flags flags arguments
unfolding parse_flags
parse_flags-last flags [] = refl
parse_flags-last flags (a ∷ arguments) =
    parse_flags-last (set_flag a flags) arguments
    ∙ ap (λ g. last_flags g arguments) (set_flag-given a flags)
    ∙ sym (last_flags-next a arguments flags)

-- The handler that the last values of the flags choose.
abbrev pub chosen_handler : {H : Type 0} → Handlers H → CommandFlags → H
chosen_handler ops flags =
    if flags.log_kv_pairs
    then ops.new_text_handler flags.log_level
    else if flags.log_json
    then ops.new_json_handler flags.log_level
    else ops.new_tint_handler flags.log_level flags.log_no_color

-- A message of the program is handed on, once, if its level is at least the last one of the
-- arguments, or else INFO: to the handler for key=value pairs if the last value of that flag says
-- so, else for JSON if that of this flag does, else to the tinted one; with the time unless the last
-- value of its flag switches it off.
pub main_logger-log :
    {H : Type 0} (ops : Handlers H) (arguments : List Argument) (now : ℕ) (level : ℤ) (msg : Bytes)
    (a : List Attr)
    → log ops (main_logger ops arguments) now level msg a ≡ (
        if le (or_else (last_of log_level_of arguments) level_info) level
        then written ops (chosen_handler ops (last_flags default_flags arguments)) (record {
          time = if or_else (last_of log_no_time_of arguments) false then none else some now;
          level = level;
          msg = msg;
          attrs = a;
        })
        else [])
unfolding main_logger new_handler
main_logger-log ops arguments now level msg a =
    log-written ops (log_cfg (parse_flags default_flags arguments)) [] now level msg a
    ∙ ap
        (λ flags.
          if le flags.log_level level
          then written ops (chosen_handler ops flags) (record {
            time = if flags.log_no_time then none else some now;
            level = level;
            msg = msg;
            attrs = a;
          })
          else [])
        (parse_flags-last default_flags arguments)
