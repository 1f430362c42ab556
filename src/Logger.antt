-- ===== src/Logger.antt =====
-- logger/logger.go: what each call writes at a level. `sprintf` is the format of fmt with the values of the
-- call; an error comes as its text.
use update_manager.Base.{
  ℤ, ℕ, leb, String, Bool, Option, none, some, string_eq, ◌==◌, if◌then◌else◌,
}
use update_manager.Config.Flags.{LogConfig}
use Prim.Native.String.{◌++◌ as cat}

pub data LogLevel : Type 0 where
  error warn info debug trace : LogLevel

abbrev number : LogLevel → ℕ
number error = 1
number warn = 2
number info = 3
number debug = 4
number trace = 5

-- The level of a configuration, from its text in upper case.
unfoldable pub parse_level : String → LogLevel
parse_level text =
    if text == "INFO"
    then info
    else if text == "WARN"
    then warn
    else if text == "DEBUG"
    then debug
    else if text == "TRACE"
    then trace
    else error

abbrev prefix_of : LogLevel → String
prefix_of error = "ERROR  "
prefix_of warn = "WARN   "
prefix_of info = "INFO   "
prefix_of debug = "DEBUG  "
prefix_of trace = "TRACE  "

-- `level >= l`
unfoldable pub is_enabled : LogLevel → LogLevel → Bool
is_enabled level l = leb (number l) (number level)

module _ (sprintf : String → String) where
  -- Error, Warn, Info, Debug and Trace.
  unfoldable pub log_format : LogLevel → LogLevel → String → Option String
  unfolding is_enabled
  log_format level l format =
      if is_enabled level l then some (sprintf (cat (prefix_of l) (cat " " format))) else none

  -- ErrorErr, WarnErr, InfoErr, DebugErr and TraceErr.
  unfoldable pub log_err : LogLevel → LogLevel → String → String → Option String
  unfolding is_enabled
  log_err level l err format =
      if is_enabled level l
      then some (sprintf (cat (prefix_of l) (cat " " (cat format (cat " " err)))))
      else none

-- Where the log goes: the standard error, or a file that is rotated by size, count and age.
pub data Output : Type 0 where
  stderr : Output
  rotated : String → ℤ → ℤ → ℤ → Output

-- SetupLogger: the output and the level; `none` if the directory of the file cannot be made. `to_upper` is
-- strings.ToUpper.
unfoldable pub setup_logger : (String → String) → Bool → LogConfig → Option (Output × LogLevel)
unfolding parse_level
setup_logger to_upper made config =
    let level = parse_level (to_upper config.log_level) in
    if config.log_file == ""
    then some (stderr, level)
    else if made
    then some (
      rotated config.log_file config.log_file_size config.log_file_count config.log_file_max_age,
      level,
    )
    else none
