-- ===== src/Log/Lines.antt =====
-- The lines of the log (logLine, logSourced and their callers of src/log.go).
use pg_guard.Prelude.{
  ℕ, ◌+◌, ◌-◌, ◌/◌, ◌*◌, Bool, ◌||◌, Option, none, some, [], ◌∷◌, ◌++◌, Text, lit, ltb, ◌==◌,
  if◌then◌else◌,
}
use pg_guard.Log.{LogLevel, log_debug, rank, level_string, to_lower, Logging}

abbrev pub quote_mark : ℕ
quote_mark = 34

abbrev pub escape_mark : ℕ
escape_mark = 92

-- A hexadecimal digit below 16.
abbrev pub hex_digit : ℕ → ℕ
hex_digit d = if ltb d 10 then 48 + d else 87 + d

abbrev pub escaped : ℕ → Text
escaped c = escape_mark ∷ (c ∷ [])

-- What `%q` (strconv.Quote) writes for a byte of ASCII; a byte of a printable character beyond ASCII
-- is left as it is.
abbrev pub quote_byte : ℕ → Text
quote_byte c =
    if c == quote_mark || c == escape_mark
    then escaped c
    else if c == 7
    then escaped 97
    else if c == 8
    then escaped 98
    else if c == 12
    then escaped 102
    else if c == 10
    then escaped 110
    else if c == 13
    then escaped 114
    else if c == 9
    then escaped 116
    else if c == 11
    then escaped 118
    else if ltb c 32 || c == 127
    then escape_mark ∷ (120 ∷ (hex_digit (c / 16) ∷ (hex_digit (c - c / 16 * 16) ∷ [])))
    else c ∷ []

unfoldable pub quote_bytes : Text → Text
quote_bytes [] = []
quote_bytes (c ∷ s) = quote_byte c ++ quote_bytes s

-- `%q`
unfoldable pub quoted : Text → Text
unfolding quote_bytes
quoted s = quote_mark ∷ (quote_bytes s ++ (quote_mark ∷ []))

abbrev pub json_line : Text → LogLevel → Text → Text → Text
json_line ts level msg source =
    lit "{\"ts\":"
    ++ (quoted ts
        ++ (lit ",\"level\":"
            ++ (quoted (to_lower (level_string level))
                ++ (lit ",\"msg\":"
                    ++ (quoted msg ++ (lit ",\"source\":" ++ (quoted source ++ lit "}")))))))

abbrev pub text_line : Text → LogLevel → Text → Text
text_line ts level msg = ts ++ (lit "   " ++ (level_string level ++ (lit ": " ++ msg)))

abbrev pub sourced_line : Text → LogLevel → Text → Text → Text
sourced_line ts level source msg =
    ts ++ (lit "   " ++ (level_string level ++ (lit " [" ++ (source ++ (lit "]: " ++ msg)))))

-- `level > gLogLevel`
abbrev pub is_silent : Logging → LogLevel → Bool
is_silent log level = ltb (rank log.level) (rank level)

-- The line that is written, if any; the time stamp is the time of the call.
unfoldable pub log_line : Logging → Text → LogLevel → Text → Option Text
unfolding quoted
log_line log ts level msg =
    if is_silent log level
    then none
    else some (if log.json then json_line ts level msg (lit "pg-guard") else text_line ts level msg)

unfoldable pub log_sourced : Logging → Text → LogLevel → Text → Text → Option Text
unfolding quoted
log_sourced log ts level source line =
    if is_silent log level
    then none
    else some
        (if log.json then json_line ts level line source else sourced_line ts level source line)

unfoldable pub log_cmd_output : Logging → Text → Text → Text → Option Text
unfolding log_sourced
log_cmd_output log ts source line = log_sourced log ts log_debug source line

-- `logMsg`, with its arguments formatted.
unfoldable pub log_msg : Logging → Text → LogLevel → Text → Option Text
unfolding log_line
log_msg log ts level msg = if is_silent log level then none else log_line log ts level msg
