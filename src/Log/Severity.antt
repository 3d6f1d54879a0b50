-- ===== src/Log/Severity.antt =====
-- The level at which a line of postgres is logged again (postgresLogLevel and classifyPostgresLine of
-- src/supervisor.go).
use pg_guard.Prelude.{
  ℕ, Bool, false, not, ◌&&◌, ◌||◌, Option, none, some, is_some, List, [], ◌∷◌, Text, lit, text_eq,
  is_empty, strip_prefix, ◌==◌, if◌then◌else◌,
}
use pg_guard.Node.{Node}
use pg_guard.Log.{LogLevel, log_error, log_warn, log_info, to_upper}

abbrev or_else {ℓ} : {A : Type ℓ} → Option A → Option A → Option A
or_else none o = o
or_else (some a) o = some a

-- What follows the first place of strings.Index(s, p), if there is one.
unfoldable pub after_first : Text → Text → Option Text
unfolding strip_prefix
after_first p [] = strip_prefix p []
after_first p (c ∷ s) = or_else (strip_prefix p (c ∷ s)) (after_first p s)

-- strings.Contains(s, p)
abbrev pub contains : Text → Text → Bool
contains p s = is_some (after_first p s)

abbrev pub keep_before {ℓ} : {A : Type ℓ} → A → Option (List A) → Option (List A)
keep_before a none = none
keep_before a (some s) = some (a ∷ s)

-- `s[:strings.Index(s, b)]`
unfoldable pub before_byte : ℕ → Text → Option Text
before_byte b [] = none
before_byte b (c ∷ s) = let rest = before_byte b s in if c == b then some [] else keep_before c rest

abbrev pub has_blank : Text → Bool
has_blank [] = false
has_blank (c ∷ s) = (c == 32 || c == 9) || has_blank s

abbrev pub token_of : Option Text → Text
token_of none = []
token_of (some token) =
    if not (is_empty token) && (text_eq token (to_upper token) && not (has_blank token))
    then token
    else []

abbrev pub token_after : Option Text → Text
token_after none = []
token_after (some rest) = token_of (before_byte 58 rest)

unfoldable pub postgres_log_level : Text → Text
unfolding after_first before_byte text_eq
postgres_log_level line = token_after (after_first (lit "] ") line)

abbrev pub noises : List Text
noises =
    lit "terminating connection due to administrator command"
    ∷ (lit "the database system is shutting down" ∷ [])

abbrev pub is_noise : List Text → Text → Bool
is_noise [] line = false
is_noise (noise ∷ ns) line = contains noise line || is_noise ns line

abbrev pub is_failure : Text → Bool
is_failure token =
    text_eq token (lit "FATAL") || (text_eq token (lit "PANIC") || text_eq token (lit "ERROR"))

abbrev pub level_of : Text → Bool → LogLevel
level_of token expected =
    if is_failure token
    then (if expected then log_info else log_error)
    else (if text_eq token (lit "WARNING") then log_warn else log_info)

-- `classifyPostgresLine`, which reads the marks of a coordinated stop.
unfoldable pub classify_postgres_line : Node → Text → LogLevel
unfolding after_first postgres_log_level text_eq
classify_postgres_line s line =
    level_of (postgres_log_level line)
      ((s.shutdown_in_progress || s.switchover_in_progress) && is_noise noises line)
