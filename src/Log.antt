-- ===== src/Log.antt =====
-- Levels, formats and the set-up of the log (src/log.go), for settings in ASCII.
pub mod Lines
pub mod Reading
pub mod Severity
pub mod Shapes
use pg_guard.Prelude.{
  ℕ, ◌+◌, ◌-◌, Bool, true, false, ◌&&◌, Option, none, some, List, [], ◌∷◌, map, Text, lit, text_eq,
  is_empty, leb, trim_space, if◌then◌else◌,
}
use pg_guard.Settings.Tables.{word}

pub data LogLevel : Type 0 where
  log_error log_warn log_info log_debug : LogLevel

-- The order of the constants.
abbrev pub rank : LogLevel → ℕ
rank log_error = 0
rank log_warn = 1
rank log_info = 2
rank log_debug = 3

abbrev pub level_string : LogLevel → Text
level_string log_error = lit "ERROR"
level_string log_warn = lit "WARN"
level_string log_info = lit "INFO"
level_string log_debug = lit "DEBUG"

-- strings.ToLower and strings.ToUpper on one byte.
abbrev pub lower : ℕ → ℕ
lower c = if leb 65 c && leb c 90 then c + 32 else c

abbrev pub upper : ℕ → ℕ
upper c = if leb 97 c && leb c 122 then c - 32 else c

abbrev pub to_lower : Text → Text
to_lower = map lower

abbrev pub to_upper : Text → Text
to_upper = map upper

abbrev pub level_words : List (Text × LogLevel)
level_words =
    (lit "error", log_error)
    ∷ ((lit "warn", log_warn) ∷ ((lit "info", log_info) ∷ ((lit "debug", log_debug) ∷ [])))

abbrev pub format_words : List (Text × Bool)
format_words = (lit "json", true) ∷ ((lit "text", false) ∷ [])

unfoldable pub parse_log_level : Text → Option LogLevel
unfolding trim_space
parse_log_level s = word (to_lower (trim_space s)) level_words

unfoldable pub parse_log_format : Text → Option Bool
unfolding trim_space
parse_log_format s = word (to_lower (trim_space s)) format_words

-- The globals of the log: its level, whether it writes JSON, and the file that it goes to, if any.
pub record Logging : Type 0 where
  pub level : LogLevel
  pub json : Bool
  pub file : Option Text

abbrev pub default_logging : Logging
default_logging = record { level = log_info; json = true; file = none }

abbrev or_keep {ℓ} : {A : Type ℓ} → A → Option A → A
or_keep a none = a
or_keep a (some b) = b

-- A setting that is not understood is reported and leaves the default; so does a log file that cannot
-- be opened.
unfoldable pub init_logging : (Text → Text) → (Text → Bool) → Logging
init_logging getenv opens =
    let level = getenv (lit "PG_GUARD_LOG_LEVEL") in
    let format = getenv (lit "PG_GUARD_LOG_FORMAT") in
    let path = getenv (lit "PG_GUARD_LOG_FILE") in
    record {
      level = if is_empty level then log_info else or_keep log_info (parse_log_level level);
      json = if is_empty format then true else or_keep true (parse_log_format format);
      file = if is_empty path then none else (if opens path then some path else none);
    }
