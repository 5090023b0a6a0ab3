-- ===== src/Logging/Loggers.antt =====
-- The constructors of logging/logging.go. The packages go.uber.org/zap, github.com/lmittmann/tint and
-- github.com/rs/zerolog are parameters: what they make of the configurations, and what a logger
-- writes of a message at an instant.
use cubic_go_playground.Prelude.{
  ℕ, Bool, ◌&&◌, List, [], ◌∷◌, ◌++◌, Option, none, some, length, ◌==◌, if◌then◌else◌, Bytes, codes,
}
use cubic_go_playground.Resolv.Family.{same_text}

-- The encoders of zapcore that are named.
pub data LevelEncoder : Type 0 where
  capital_color_level_encoder : LevelEncoder
  capital_level_encoder : LevelEncoder

pub data TimeEncoder : Type 0 where
  iso8601_time_encoder : TimeEncoder

pub data DurationEncoder : Type 0 where
  string_duration_encoder : DurationEncoder

pub data CallerEncoder : Type 0 where
  short_caller_encoder : CallerEncoder

pub record EncoderConfig : Type 0 where
  pub time_key : Bytes
  pub level_key : Bytes
  pub name_key : Bytes
  pub caller_key : Bytes
  pub function_key : Bytes
  pub message_key : Bytes
  pub stacktrace_key : Bytes
  pub line_ending : Bytes
  pub encode_level : LevelEncoder
  pub encode_time : Option TimeEncoder
  pub encode_duration : DurationEncoder
  pub encode_caller : CallerEncoder
  pub console_separator : Bytes

-- A clock, by what it shows at an instant of the system.
pub record Clock : Type 0 where
  pub now : ℕ → ℕ

-- `time.Time{}` is the instant 0.
abbrev pub fake_clock : Clock
fake_clock = record { now = λ t. 0 }

pub data ZapOption : Type 0 where
  with_clock : Clock → ZapOption
  add_caller : ZapOption

-- An attribute of log/slog, over the values; `nil` is the value of `slog.Attr{}`.
pub record SlogAttr (V : Type 0) : Type 0 where
  pub key : Bytes
  pub value : V

abbrev pub zero_attr : {V : Type 0} → V → SlogAttr V
zero_attr nil = record { key = []; value = nil }

pub record TintOptions (V : Type 0) : Type 0 where
  pub level : ℕ
  pub replace_attr : Option (List Bytes → SlogAttr V → SlogAttr V)
  pub no_color : Bool

-- The writers and loggers of the packages, what a logger writes of a message at an instant, and how
-- that comes about: with which time zap has it encoded, which attribute of the time, if any, tint
-- shows, and which time, if any, zerolog adds.
pub record Packages (V : Type 0) : Type 1 where
  pub Writer : Type 0
  pub ZapLogger : Type 0
  pub SlogLogger : Type 0
  pub Zerolog : Type 0
  pub omit_key : Bytes
  pub default_line_ending : Bytes
  pub nil : V
  pub time_value : ℕ → V
  pub is_zero_attr : SlogAttr V → Bool
  pub new_zap : EncoderConfig → Writer → (level : ℕ) → List ZapOption → ZapLogger
  pub new_tint : Writer → TintOptions V → SlogLogger
  pub new_zerolog : Writer → Zerolog
  pub new_console_zerolog : Writer → (no_color : Bool) → Zerolog
  pub at_level : ℕ → Zerolog → Zerolog
  pub with_timestamp : Zerolog → Zerolog
  pub has_timestamp : Zerolog → Bool
  pub zap_line : ZapLogger → (instant : ℕ) → Bytes → Bytes
  pub slog_line : SlogLogger → (instant : ℕ) → Bytes → Bytes
  pub zerolog_line : Zerolog → (instant : ℕ) → Bytes → Bytes
  pub zap_encoded : ZapLogger → (time : ℕ) → Bytes → Bytes
  pub tint_shown : SlogLogger → Option (SlogAttr V) → Bytes → Bytes
  pub zerolog_encoded : Zerolog → Option ℕ → Bytes → Bytes

module _ {V : Type 0} (packages : Packages V) where
  abbrev default_config : EncoderConfig
  default_config = record {
    time_key = codes "T";
    level_key = codes "L";
    name_key = codes "N";
    caller_key = codes "C";
    function_key = packages.omit_key;
    message_key = codes "M";
    stacktrace_key = codes "S";
    line_ending = packages.default_line_ending;
    encode_level = capital_color_level_encoder;
    encode_time = some iso8601_time_encoder;
    encode_duration = string_duration_encoder;
    encode_caller = short_caller_encoder;
    console_separator = codes " ";
  }

  abbrev without_color : Bool → EncoderConfig → EncoderConfig
  without_color no_color ec =
      if no_color then record ec { encode_level = capital_level_encoder } else ec

  abbrev without_time : Bool → EncoderConfig → EncoderConfig
  without_time no_time ec =
      if no_time then record ec { time_key = packages.omit_key; encode_time = none } else ec

  unfoldable pub new_production_console_encoder_config : (no_color no_time : Bool) → EncoderConfig
  new_production_console_encoder_config no_color no_time =
      without_time no_time (without_color no_color default_config)

  abbrev pub zap_options : (no_time add : Bool) → List ZapOption
  zap_options no_time add =
      (if no_time then with_clock fake_clock ∷ [] else []) ++ (if add then add_caller ∷ [] else [])

  unfoldable pub new_production_console_zap_logger :
      packages.Writer → (level : ℕ) → (no_color no_time add_caller : Bool) → packages.ZapLogger
  new_production_console_zap_logger ws level no_color no_time add =
      packages.new_zap (new_production_console_encoder_config no_color no_time) ws level
        (zap_options no_time add)

  -- The closure of `NewTintSlogger`; `slog.TimeKey` is "time".
  unfoldable pub replace_attr : List Bytes → SlogAttr V → SlogAttr V
  replace_attr groups attr =
      if (length groups == 0) && same_text attr.key (codes "time")
      then zero_attr packages.nil
      else attr

  unfoldable pub new_tint_slogger :
      packages.Writer → (level : ℕ) → (no_color no_time : Bool) → packages.SlogLogger
  new_tint_slogger w level no_color no_time = packages.new_tint w (record {
    level = level;
    replace_attr = if no_time then some replace_attr else none;
    no_color = no_color;
  })

  unfoldable pub new_zerolog_logger :
      packages.Writer → (level : ℕ) → (no_time : Bool) → packages.Zerolog
  new_zerolog_logger w level no_time =
      let logger = packages.at_level level (packages.new_zerolog w) in
      if no_time then logger else packages.with_timestamp logger

  unfoldable pub new_zerolog_pretty_logger :
      packages.Writer → (level : ℕ) → (no_color no_time : Bool) → packages.Zerolog
  new_zerolog_pretty_logger w level no_color no_time =
      let logger = packages.at_level level (packages.new_console_zerolog w no_color) in
      if no_time then logger else packages.with_timestamp logger
