-- ===== src/Logging/Tests.antt =====
-- Runs of the model of logging/logging.go, and its theorem at a concrete input. The packages of a
-- test write the time in front of the message.
use cubic_go_playground.Prelude.{
  ℕ, ◌≡◌, inl, refl, ap, Bool, true, false, List, [], ◌∷◌, Option, none, some, Bytes, codes, length,
  ◌==◌, if◌then◌else◌, arith,
}
use cubic_go_playground.Resolv.Family.{same_text}
use cubic_go_playground.Logging.Loggers.{
  ZapOption, SlogAttr, TintOptions, Packages, new_production_console_zap_logger,
  new_production_console_encoder_config, replace_attr, new_tint_slogger, new_zerolog_logger,
  new_zerolog_pretty_logger, capital_level_encoder,
}
use cubic_go_playground.Logging.Timed.{
  clock_of, system_clock, time_attr, shown_attr, added_time, IsDocumented, loggers-time,
}

-- An attribute of the time in front of a message, unless its key is empty.
abbrev has_no_key : SlogAttr ℕ → Bool
has_no_key a = length a.key == 0

abbrev in_front : Option (SlogAttr ℕ) → Bytes → Bytes
in_front none message = message
in_front (some a) message = a.value ∷ message

abbrev replaced : Option (List Bytes → SlogAttr ℕ → SlogAttr ℕ) → SlogAttr ℕ → Option (SlogAttr ℕ)
replaced none a = some a
replaced (some replace) a = if has_no_key (replace [] a) then none else some (replace [] a)

abbrev time_in_front : Option ℕ → Bytes → Bytes
time_in_front none message = message
time_in_front (some t) message = t ∷ message

abbrev packages : Packages ℕ
packages = record {
  Writer = Unit;
  ZapLogger = List ZapOption;
  SlogLogger = TintOptions ℕ;
  Zerolog = Bool;
  omit_key = [];
  default_line_ending = 10 ∷ [];
  nil = 0;
  time_value = λ t. t;
  is_zero_attr = has_no_key;
  new_zap = λ ec w level options. options;
  new_tint = λ w options. options;
  new_zerolog = λ w. false;
  new_console_zerolog = λ w no_color. false;
  at_level = λ level timed. timed;
  with_timestamp = λ timed. true;
  has_timestamp = λ timed. timed;
  zap_line = λ options t message. (clock_of system_clock options).now t ∷ message;
  slog_line = λ options t message.
      in_front (replaced options.replace_attr (record { key = codes "time"; value = t })) message;
  zerolog_line = λ timed t message. time_in_front (added_time timed t) message;
  zap_encoded = λ options t message. t ∷ message;
  tint_shown = λ options a message. in_front a message;
  zerolog_encoded = λ timed t message. time_in_front t message;
}

packages-IsDocumented : IsDocumented packages
packages-IsDocumented = record {
  asks_clock = λ ec w level options t message. refl;
  replaces = λ w options t message.
      ap (λ a. in_front a message)
        (shown_replaced options.replace_attr (record { key = codes "time"; value = t }));
  zero_is_zero = refl;
  adds_time = λ logger t message. refl;
  starts_untimed = λ w. refl;
  starts_pretty_untimed = λ w no_color. refl;
  keeps_timestamp = λ level logger. refl;
  gets_timestamp = λ logger. refl;
}
  where
    shown_replaced :
        (o : Option (List Bytes → SlogAttr ℕ → SlogAttr ℕ)) (a : SlogAttr ℕ)
        → replaced o a ≡ shown_attr packages o a
    shown_replaced none a = refl
    shown_replaced (some replace) a = refl

-- The same message at the instant 7, with the time and without.
timed_lines :
    (packages.zap_line (new_production_console_zap_logger packages tt 0 true false true) 7 (1 ∷ [])
      ≡ 7 ∷ 1 ∷ [])
    × (packages.slog_line (new_tint_slogger packages tt 0 true false) 7 (1 ∷ []) ≡ 7 ∷ 1 ∷ [])
    × (packages.zerolog_line (new_zerolog_logger packages tt 0 false) 7 (1 ∷ []) ≡ 7 ∷ 1 ∷ [])
unfolding new_production_console_zap_logger new_tint_slogger new_zerolog_logger
timed_lines = (refl, refl, refl)

untimed_lines :
    (packages.zap_line (new_production_console_zap_logger packages tt 0 true true true) 7 (1 ∷ [])
      ≡ 0 ∷ 1 ∷ [])
    × (packages.slog_line (new_tint_slogger packages tt 0 true true) 7 (1 ∷ []) ≡ 1 ∷ [])
    × (packages.zerolog_line (new_zerolog_logger packages tt 0 true) 7 (1 ∷ []) ≡ 1 ∷ [])
unfolding new_production_console_zap_logger new_tint_slogger new_zerolog_logger replace_attr
    same_text
untimed_lines = (refl, refl, refl)

encoder_config :
    let ec = new_production_console_encoder_config packages true true in
    (ec.time_key ≡ []) × (ec.encode_time ≡ none) × (ec.encode_level ≡ capital_level_encoder)
unfolding new_production_console_encoder_config
encoder_config = (refl, refl, refl)

loggers-time_example :
    let zap = new_production_console_zap_logger packages tt 0 true true true in
    let slog = new_tint_slogger packages tt 0 true true in
    let zerolog = new_zerolog_logger packages tt 0 true in
    let pretty = new_zerolog_pretty_logger packages tt 0 true true in
    (packages.zap_line zap 7 (1 ∷ []) ≡ packages.zap_encoded zap 0 (1 ∷ []))
    × (packages.slog_line slog 7 (1 ∷ []) ≡ packages.tint_shown slog none (1 ∷ []))
    × (replace_attr packages ((1 ∷ []) ∷ []) (time_attr packages 7) ≡ time_attr packages 7)
    × (packages.zerolog_line zerolog 7 (1 ∷ []) ≡ packages.zerolog_encoded zerolog none (1 ∷ []))
    × (packages.zerolog_line pretty 7 (1 ∷ []) ≡ packages.zerolog_encoded pretty none (1 ∷ []))
loggers-time_example =
    loggers-time packages packages-IsDocumented tt 0 true true true 7 (1 ∷ []) ((1 ∷ []) ∷ [])
      (time_attr packages 7) (inl (ground arith))
