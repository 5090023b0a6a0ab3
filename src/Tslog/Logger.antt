-- ===== src/Tslog/Logger.antt =====
-- `Config` and `Logger` of logging/tslog/tslog.go. The handlers of log/slog and of tint are a
-- parameter: how one is made, what it makes of attributes and groups, and whether it fails on a
-- record. The writer of a handler is left out. What is written is a list of effects.
use cubic_go_playground.Prelude.{
  ℕ, Bool, true, false, List, [], ◌∷◌, Option, none, some, Bytes, leb, not, if◌then◌else◌,
}
use cubic_go_playground.Prelude.{ℤ, pos, negsuc}
use cubic_go_playground.Tslog.Attrs.{Attr}

pub record Config : Type 0 where
  pub level : ℤ
  pub no_color : Bool
  pub no_time : Bool
  pub pretty_json : Bool
  pub use_text_handler : Bool
  pub use_json_handler : Bool

-- A `slog.Record`; its time is none if it is the zero value.
pub record Record : Type 0 where
  pub time : Option ℕ
  pub level : ℤ
  pub msg : Bytes
  pub attrs : List Attr

pub record Handlers (H : Type 0) : Type 0 where
  pub new_text_handler : ℤ → H
  pub new_json_handler : ℤ → H
  pub new_tint_handler : ℤ → Bool → H
  pub with_attrs : H → List Attr → H
  pub with_group : H → Bytes → H
  pub handle : H → Record → Option Bytes

pub data Effect (H : Type 0) : Type 0 where
  handles : H → Record → Effect H
  prints_failure : Bytes → Effect H

pub record Logger (H : Type 0) : Type 0 where
  pub level : ℤ
  pub no_time : Bool
  pub handler : H

-- `slog.LevelDebug` and the other levels.
abbrev pub level_debug : ℤ
level_debug = negsuc 3

abbrev pub level_info : ℤ
level_info = pos 0

abbrev pub level_warn : ℤ
level_warn = pos 4

abbrev pub level_error : ℤ
level_error = pos 8

abbrev pub le : ℤ → ℤ → Bool
le (pos n) (pos m) = leb n m
le (pos n) (negsuc m) = false
le (negsuc n) (pos m) = true
le (negsuc n) (negsuc m) = leb m n

module _ {H : Type 0} (ops : Handlers H) where
  unfoldable pub new_handler : Config → H
  new_handler c =
      if c.use_text_handler
      then ops.new_text_handler c.level
      else if c.use_json_handler
      then ops.new_json_handler c.level
      else ops.new_tint_handler c.level c.no_color

  unfoldable pub new_logger_with_handler : Config → H → Logger H
  new_logger_with_handler c handler = record {
    level = c.level;
    no_time = c.no_time;
    handler = handler;
  }

  unfoldable pub new_logger : Config → Logger H
  new_logger c = new_logger_with_handler c (new_handler c)

  unfoldable pub with_attrs : Logger H → List Attr → Logger H
  with_attrs l attrs = record {
    level = l.level;
    no_time = l.no_time;
    handler = ops.with_attrs l.handler attrs;
  }

  unfoldable pub with_group : Logger H → Bytes → Logger H
  with_group l group = record {
    level = l.level;
    no_time = l.no_time;
    handler = ops.with_group l.handler group;
  }

  unfoldable pub enabled : Logger H → ℤ → Bool
  enabled l level = le l.level level

  -- The unexported `log`, at that time.
  unfoldable pub write : Logger H → ℕ → ℤ → Bytes → List Attr → List (Effect H)
  write l now level msg attrs =
      let r : Record = record {
        time = if not l.no_time then some now else none;
        level = level;
        msg = msg;
        attrs = attrs;
      } in
      handles l.handler r
      ∷ elim (ops.handle l.handler r) [ none ↦ [] | some err ↦ prints_failure err ∷ [] ]

  unfoldable pub log : Logger H → ℕ → ℤ → Bytes → List Attr → List (Effect H)
  log l now level msg attrs = if not (enabled l level) then [] else write l now level msg attrs

  unfoldable pub debug : Logger H → ℕ → Bytes → List Attr → List (Effect H)
  debug l now msg attrs = log l now level_debug msg attrs

  unfoldable pub info : Logger H → ℕ → Bytes → List Attr → List (Effect H)
  info l now msg attrs = log l now level_info msg attrs

  unfoldable pub warn : Logger H → ℕ → Bytes → List Attr → List (Effect H)
  warn l now msg attrs = log l now level_warn msg attrs

  unfoldable pub error : Logger H → ℕ → Bytes → List Attr → List (Effect H)
  error l now msg attrs = log l now level_error msg attrs
