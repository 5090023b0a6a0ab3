-- ===== src/Entry/Flags.antt =====
-- route/cmd/route/main.go, the start of `main` in main_bsd.go and main_windows.go, and main_stub.go.
-- The arguments are the flags that they set, one after the other.
use cubic_go_playground.Prelude.{ℕ, Bool, false, List, [], ◌∷◌, Bytes, codes, ℤ}
use cubic_go_playground.Tslog.Logger.{Config, Handlers, Logger, level_info, new_logger}

-- The variables that the flags set.
pub record CommandFlags : Type 0 where
  pub dump_all : Bool
  pub log_no_color : Bool
  pub log_no_time : Bool
  pub log_kv_pairs : Bool
  pub log_json : Bool
  pub log_level : ℤ

-- `init`.
abbrev pub default_flags : CommandFlags
default_flags = record {
  dump_all = false;
  log_no_color = false;
  log_no_time = false;
  log_kv_pairs = false;
  log_json = false;
  log_level = level_info;
}

pub data Argument : Type 0 where
  sets_dump_all : Bool → Argument
  sets_log_no_color : Bool → Argument
  sets_log_no_time : Bool → Argument
  sets_log_kv_pairs : Bool → Argument
  sets_log_json : Bool → Argument
  sets_log_level : ℤ → Argument

unfoldable pub set_flag : Argument → CommandFlags → CommandFlags
set_flag (sets_dump_all b) flags = record flags { dump_all = b }
set_flag (sets_log_no_color b) flags = record flags { log_no_color = b }
set_flag (sets_log_no_time b) flags = record flags { log_no_time = b }
set_flag (sets_log_kv_pairs b) flags = record flags { log_kv_pairs = b }
set_flag (sets_log_json b) flags = record flags { log_json = b }
set_flag (sets_log_level l) flags = record flags { log_level = l }

-- `flag.Parse`.
unfoldable pub parse_flags : CommandFlags → List Argument → CommandFlags
parse_flags flags [] = flags
parse_flags flags (a ∷ arguments) = parse_flags (set_flag a flags) arguments

abbrev pub log_cfg : CommandFlags → Config
log_cfg flags = record {
  level = flags.log_level;
  no_color = flags.log_no_color;
  no_time = flags.log_no_time;
  pretty_json = false;
  use_text_handler = flags.log_kv_pairs;
  use_json_handler = flags.log_json;
}

-- The logger of `main`.
unfoldable pub main_logger : {H : Type 0} → Handlers H → List Argument → Logger H
main_logger ops arguments = new_logger ops (log_cfg (parse_flags default_flags arguments))

-- `main` on a system that is not supported: what is written to the standard error, and the code.
abbrev pub stub_main : Bytes × ℕ
stub_main = (codes "Unsupported platform\n", 1)
