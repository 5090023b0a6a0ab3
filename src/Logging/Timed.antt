-- ===== src/Logging/Timed.antt =====
-- The time in what the loggers of logging/logging.go write.
use cubic_go_playground.Prelude.{
  ℕ, Bool, true, false, ◌≡◌, ◌≢◌, ◌⊎◌, not, if◌then◌else◌, ap, ◌∙◌, refl, List, [], ◌∷◌, Option,
  none, some, some, Bytes, codes, arith,
}
use cubic_go_playground.Resolv.Family.{same_text}
use cubic_go_playground.Logging.Loggers.{
  EncoderConfig, Clock, ZapOption, with_clock, add_caller, SlogAttr, zero_attr, TintOptions,
  Packages, zap_options, new_production_console_encoder_config, new_production_console_zap_logger,
  replace_attr, new_tint_slogger, new_zerolog_logger, new_zerolog_pretty_logger,
}

-- The clock of the options: the last one that is given, or else the system's.
abbrev pub clock_of : Clock → List ZapOption → Clock
clock_of clock [] = clock
clock_of clock (with_clock c ∷ options) = clock_of c options
clock_of clock (add_caller ∷ options) = clock_of clock options

abbrev pub system_clock : Clock
system_clock = record { now = λ t. t }

-- The attribute of the time of a message, which has no groups.
abbrev pub time_attr : {V : Type 0} (packages : Packages V) → ℕ → SlogAttr V
time_attr packages t = record { key = codes "time"; value = packages.time_value t }

-- What a handler shows of an attribute of a message: what its ReplaceAttr makes of it, and nothing
-- if that is the zero value.
abbrev pub shown_attr :
    {V : Type 0} (packages : Packages V)
    → Option (List Bytes → SlogAttr V → SlogAttr V)
    → SlogAttr V
    → Option (SlogAttr V)
shown_attr packages none attr = some attr
shown_attr packages (some replace) attr =
    if packages.is_zero_attr (replace [] attr) then none else some (replace [] attr)

abbrev pub added_time : Bool → ℕ → Option ℕ
added_time timed t = if timed then some t else none

-- What the packages document of the time: a logger of zap asks the clock of its options, the handler
-- of tint passes the time to ReplaceAttr as an attribute, and a logger of zerolog adds the time if it
-- has been asked to by Timestamp.
pub record IsDocumented {V : Type 0} (packages : Packages V) : Type 0 where
  pub asks_clock :
      (ec : EncoderConfig) (w : packages.Writer) (level : ℕ) (options : List ZapOption) (t : ℕ)
      (message : Bytes)
      → let logger = packages.new_zap ec w level options in
        packages.zap_line logger t message
        ≡ packages.zap_encoded logger ((clock_of system_clock options).now t) message
  pub replaces :
      (w : packages.Writer) (options : TintOptions V) (t : ℕ) (message : Bytes)
      → let logger = packages.new_tint w options in
        packages.slog_line logger t message
        ≡ packages.tint_shown logger
            (shown_attr packages options.replace_attr (time_attr packages t))
            message
  pub zero_is_zero : packages.is_zero_attr (zero_attr packages.nil) ≡ true
  pub adds_time :
      (logger : packages.Zerolog) (t : ℕ) (message : Bytes)
      → packages.zerolog_line logger t message
        ≡ packages.zerolog_encoded logger (added_time (packages.has_timestamp logger) t) message
  pub starts_untimed :
      (w : packages.Writer) → packages.has_timestamp (packages.new_zerolog w) ≡ false
  pub starts_pretty_untimed :
      (w : packages.Writer) (no_color : Bool)
      → packages.has_timestamp (packages.new_console_zerolog w no_color) ≡ false
  pub keeps_timestamp :
      (level : ℕ) (logger : packages.Zerolog)
      → packages.has_timestamp (packages.at_level level logger) ≡ packages.has_timestamp logger
  pub gets_timestamp :
      (logger : packages.Zerolog) → packages.has_timestamp (packages.with_timestamp logger) ≡ true

module _ {V : Type 0} (packages : Packages V) where
  replace_attr-kept :
      (groups : List Bytes) (attr : SlogAttr V)
      → (groups ≢ []) ⊎ (same_text attr.key (codes "time") ≡ false)
      → replace_attr packages groups attr ≡ attr
  unfolding replace_attr
  replace_attr-kept groups attr h = ground arith

  replace_attr-time :
      (t : ℕ) → replace_attr packages [] (time_attr packages t) ≡ zero_attr packages.nil
  unfolding replace_attr same_text
  replace_attr-time t = refl

  clock_of-zap_options :
      (no_time add : Bool) (t : ℕ)
      → (clock_of system_clock (zap_options packages no_time add)).now t
        ≡ (if no_time then 0 else t)
  clock_of-zap_options no_time add t = ground arith

  module _ (d : IsDocumented packages) where
    zap_logger-line :
        (w : packages.Writer) (level : ℕ) (no_color no_time add : Bool) (t : ℕ) (message : Bytes)
        → let logger = new_production_console_zap_logger packages w level no_color no_time add in
          packages.zap_line logger t message
          ≡ packages.zap_encoded logger (if no_time then 0 else t) message
    unfolding new_production_console_zap_logger
    zap_logger-line w level no_color no_time add t message =
        let ec = new_production_console_encoder_config packages no_color no_time in
        let logger = packages.new_zap ec w level (zap_options packages no_time add) in
        d.asks_clock ec w level (zap_options packages no_time add) t message
        ∙ ap (λ x. packages.zap_encoded logger x message) (clock_of-zap_options no_time add t)

    tint_slogger-line :
        (w : packages.Writer) (level : ℕ) (no_color no_time : Bool) (t : ℕ) (message : Bytes)
        → let logger = new_tint_slogger packages w level no_color no_time in
          packages.slog_line logger t message
          ≡ packages.tint_shown logger
              (if no_time then none else some (time_attr packages t))
              message
    unfolding new_tint_slogger
    tint_slogger-line w level no_color true t message =
        let options : TintOptions V = record {
          level = level;
          replace_attr = some (replace_attr packages);
          no_color = no_color;
        } in
        let logger = packages.new_tint w options in
        d.replaces w options t message
        ∙ ap
            (λ a.
              packages.tint_shown logger (if packages.is_zero_attr a then none else some a) message)
            (replace_attr-time t)
        ∙ ap
            (λ b.
              packages.tint_shown logger (if b then none else some (zero_attr packages.nil))
                message)
            d.zero_is_zero
    tint_slogger-line w level no_color false t message = d.replaces w _ t message

    has_timestamp-zerolog :
        (w : packages.Writer) (level : ℕ) (no_time : Bool)
        → packages.has_timestamp (new_zerolog_logger packages w level no_time) ≡ not no_time
    unfolding new_zerolog_logger
    has_timestamp-zerolog w level true =
        d.keeps_timestamp level (packages.new_zerolog w) ∙ d.starts_untimed w
    has_timestamp-zerolog w level false = d.gets_timestamp _

    has_timestamp-pretty :
        (w : packages.Writer) (level : ℕ) (no_color no_time : Bool)
        → packages.has_timestamp (new_zerolog_pretty_logger packages w level no_color no_time)
          ≡ not no_time
    unfolding new_zerolog_pretty_logger
    has_timestamp-pretty w level no_color true =
        d.keeps_timestamp level (packages.new_console_zerolog w no_color)
        ∙ d.starts_pretty_untimed w no_color
    has_timestamp-pretty w level no_color false = d.gets_timestamp _

    -- Given what zap, tint and zerolog document of the time: the logger of zap has the time of a
    -- message encoded, or with noTime the zero value, whenever that is; that of tint shows it as an
    -- attribute, or with noTime not, and the closure for that keeps every attribute that is in a
    -- group or has another key; those of zerolog add it, or with noTime do not.
    pub loggers-time :
        (w : packages.Writer) (level : ℕ) (no_color no_time add : Bool) (t : ℕ) (message : Bytes)
        (groups : List Bytes) (attr : SlogAttr V)
        → (groups ≢ []) ⊎ (same_text attr.key (codes "time") ≡ false)
        → let zap = new_production_console_zap_logger packages w level no_color no_time add in
          let slog = new_tint_slogger packages w level no_color no_time in
          let zerolog = new_zerolog_logger packages w level no_time in
          let pretty = new_zerolog_pretty_logger packages w level no_color no_time in
          (packages.zap_line zap t message
            ≡ packages.zap_encoded zap (if no_time then 0 else t) message)
          × (packages.slog_line slog t message
              ≡ packages.tint_shown slog
                  (if no_time then none else some (time_attr packages t))
                  message)
          × (replace_attr packages groups attr ≡ attr)
          × (packages.zerolog_line zerolog t message
              ≡ packages.zerolog_encoded zerolog (added_time (not no_time) t) message)
          × (packages.zerolog_line pretty t message
              ≡ packages.zerolog_encoded pretty (added_time (not no_time) t) message)
    loggers-time w level no_color no_time add t message groups attr kept =
        let zerolog = new_zerolog_logger packages w level no_time in
        let pretty = new_zerolog_pretty_logger packages w level no_color no_time in
        (
          zap_logger-line w level no_color no_time add t message,
          tint_slogger-line w level no_color no_time t message,
          replace_attr-kept groups attr kept,
          d.adds_time zerolog t message
              ∙ ap (λ b. packages.zerolog_encoded zerolog (added_time b t) message)
                  (has_timestamp-zerolog w level no_time),
          d.adds_time pretty t message
              ∙ ap (λ b. packages.zerolog_encoded pretty (added_time b t) message)
                  (has_timestamp-pretty w level no_color no_time),
        )
