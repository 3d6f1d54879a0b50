-- ===== src/Log/Reading.antt =====
-- The lines of the log read as JSON (src/log.go).
use pg_guard.Prelude.{
  ℕ, ◌≡◌, refl, ap, sym, ◌∙◌, Bool, true, false, ◌&&◌, ◌||◌, Option, none, some, [], ◌∷◌, ◌++◌,
  Text, lit, text_eq, append_assoc, is_empty-append, strip_prefix-append, is_empty, strip_prefix,
  ltb, leb, ◌==◌, if◌then◌else◌, All, All-append, IsLine, arith,
}
use pg_guard.Log.{
  LogLevel, log_error, log_warn, log_info, log_debug, Logging, level_string, to_lower,
}
use pg_guard.Log.Lines.{
  quote_mark, escape_mark, quote_byte, quote_bytes, quoted, json_line, is_silent, log_sourced,
}

-- The byte that a short escape of JSON stands for.
abbrev pub unescaped : ℕ → Option ℕ
unescaped d =
    if d == 34 || d == 92 || d == 47
    then some d
    else if d == 98
    then some 8
    else if d == 102
    then some 12
    else if d == 110
    then some 10
    else if d == 114
    then some 13
    else if d == 116
    then some 9
    else none

abbrev pub push : Option ℕ → Option (Text × Text) → Option (Text × Text)
push none r = none
push (some c) none = none
push (some c) (some (s, rest)) = some (c ∷ s, rest)

-- How JSON reads what follows an opening quote: the text and what follows the closing quote. The
-- long escape `\u` is left out, which `%q` does not write for ASCII.
pub read_json : Text → Option (Text × Text)
read_json [] = none
read_json (c ∷ []) = if c == quote_mark then some ([], []) else none
read_json (c ∷ (d ∷ s)) =
    let escape = read_json s in
    let next = read_json (d ∷ s) in
    if c == quote_mark
    then some ([], d ∷ s)
    else if c == escape_mark
    then push (unescaped d) escape
    else if ltb c 32
    then none
    else push (some c) next

-- The bytes of ASCII that `%q` and JSON write alike: all but the bell, the vertical tab, delete, and the
-- control characters that have no short escape.
abbrev pub is_shared : ℕ → Bool
is_shared c = (leb 32 c && ltb c 127) || (c == 8 || (c == 9 || (c == 10 || (c == 12 || c == 13))))

abbrev pub IsShared : Text → Type 0
IsShared = All (λ c. is_shared c ≡ true)

read_json-quote_byte :
    (c : ℕ) (t : Text)
    → is_shared c ≡ true
    → is_empty t ≡ false
    → read_json (quote_byte c ++ t) ≡ push (some c) (read_json t)
unfolding read_json
read_json-quote_byte c [] h n = absurd (ground (arith, n))
read_json-quote_byte c (d ∷ t) h n = ground arith

read_json_end : (rest : Text) → read_json (quote_mark ∷ rest) ≡ some ([], rest)
unfolding read_json
read_json_end [] = refl
read_json_end (d ∷ rest) = refl

read_json-quote_bytes :
    (s rest : Text) → IsShared s → read_json (quote_bytes s ++ (quote_mark ∷ rest)) ≡ some (s, rest)
unfolding quote_bytes
read_json-quote_bytes [] rest h = read_json_end rest
read_json-quote_bytes (c ∷ s) rest (h, hs) =
    rw (append_assoc (quote_byte c) (quote_bytes s) (quote_mark ∷ rest)) (
      read_json-quote_byte c (quote_bytes s ++ (quote_mark ∷ rest)) h
        (is_empty-append (quote_bytes s) quote_mark rest)
      ∙ ap (push (some c)) (read_json-quote_bytes s rest hs))

infixl 5 ◌>>=◌
abbrev ◌>>=◌ {ℓ κ} : {A : Type ℓ} {B : Type κ} → Option A → (A → Option B) → Option B
none >>= f = none
(some a) >>= f = f a

bind_some {ℓ κ} :
    {A : Type ℓ} {B : Type κ} (f : A → Option B) {m : Option A} {a : A} {r : Option B}
    → m ≡ some a
    → f a ≡ r
    → m >>= f ≡ r
bind_some f e k = ap (λ m. m >>= f) e ∙ k

abbrev pub unquoted : Text → Option (Text × Text)
unquoted [] = none
unquoted (c ∷ s) = if c == quote_mark then read_json s else none

-- The text of a field, after its name.
unfoldable pub read_field : Text → Text → Option (Text × Text)
read_field name s = strip_prefix name s >>= unquoted

-- A record of the log: its time stamp, level, message and source, with nothing after it.
abbrev pub read_record : Text → Option (Text × Text × Text × Text)
read_record s = do
  (ts, a) ← read_field (lit "{\"ts\":") s
  (level, b) ← read_field (lit ",\"level\":") a
  (msg, c) ← read_field (lit ",\"msg\":") b
  (source, d) ← read_field (lit ",\"source\":") c
  if text_eq d (lit "}") then some (ts, level, msg, source) else none

read_field-quoted :
    (name s rest : Text)
    → IsShared s
    → read_field name (name ++ (quoted s ++ rest)) ≡ some (s, rest)
unfolding quoted read_field
read_field-quoted name s rest h =
    rw
      (
        strip_prefix-append name (quoted s ++ rest),
        append_assoc (quote_bytes s) (quote_mark ∷ []) rest,
      )
      (read_json-quote_bytes s rest h)

level-IsShared : (level : LogLevel) → IsShared (to_lower (level_string level))
level-IsShared log_error = ground arith
level-IsShared log_warn = ground arith
level-IsShared log_info = ground arith
level-IsShared log_debug = ground arith

record-json_line :
    (ts : Text) (level : LogLevel) (msg source : Text)
    → IsShared ts
    → IsShared msg
    → IsShared source
    → read_record (json_line ts level msg source)
      ≡ some (ts, to_lower (level_string level), msg, source)
unfolding text_eq
record-json_line ts level msg source t m s =
    bind_some _ (read_field-quoted (lit "{\"ts\":") ts _ t) (
      bind_some _
        (read_field-quoted (lit ",\"level\":") (to_lower (level_string level)) _
          (level-IsShared level))
        (bind_some _ (read_field-quoted (lit ",\"msg\":") msg _ m)
          (bind_some _ (read_field-quoted (lit ",\"source\":") source _ s) refl)))

emitted :
    (silent json : Bool) (a b line : Text)
    → json ≡ true
    → (if silent then none else some (if json then a else b)) ≡ some line
    → a ≡ line
emitted true json a b line j h = absurd (ground arith)
emitted false true a b line j h = ground (arith, h)
emitted false false a b line j h = absurd (ground arith)

json_written :
    (log : Logging) (ts : Text) (level : LogLevel) (source msg line : Text)
    → log.json ≡ true
    → log_sourced log ts level source msg ≡ some line
    → json_line ts level msg source ≡ line
unfolding log_sourced
json_written log ts level source msg line j h = emitted (is_silent log level) log.json _ _ line j h

-- A line that the log writes as JSON is read back as the time stamp, the level, the message and the
-- source that it was written from, with nothing left over, if these are ASCII and hold no control
-- character but backspace, tab, newline, form feed and carriage return. No message can pass for a
-- second record or for another level or source.
pub json_reads_back :
    (log : Logging) (ts : Text) (level : LogLevel) (source msg line : Text)
    → log.json ≡ true
    → IsShared ts
    → IsShared source
    → IsShared msg
    → log_sourced log ts level source msg ≡ some line
    → read_record line ≡ some (ts, to_lower (level_string level), msg, source)
json_reads_back log ts level source msg line j t s m h =
    rw (sym (json_written log ts level source msg line j h))
      (record-json_line ts level msg source t m s)

quote_byte-IsLine : (c : ℕ) → IsLine (quote_byte c)
quote_byte-IsLine c = ground arith

quote_bytes-IsLine : (s : Text) → IsLine (quote_bytes s)
unfolding quote_bytes
quote_bytes-IsLine [] = tt
quote_bytes-IsLine (c ∷ s) =
    All-append _ (quote_byte c) (quote_bytes s) (quote_byte-IsLine c) (quote_bytes-IsLine s)

quoted-IsLine : (s rest : Text) → IsLine rest → IsLine (quoted s ++ rest)
unfolding quoted
quoted-IsLine s rest h =
    rw (append_assoc (quote_bytes s) (quote_mark ∷ []) rest)
      ((refl, All-append _ (quote_bytes s) (quote_mark ∷ rest) (quote_bytes-IsLine s) (refl, h)))

field-IsLine :
    (name s rest : Text) → IsLine name → IsLine rest → IsLine (name ++ (quoted s ++ rest))
field-IsLine name s rest h k = All-append _ name (quoted s ++ rest) h (quoted-IsLine s rest k)

-- Whatever the time stamp, the source and the message hold, what the log writes as JSON is one line.
pub log_sourced-IsLine :
    (log : Logging) (ts : Text) (level : LogLevel) (source msg line : Text)
    → log.json ≡ true
    → log_sourced log ts level source msg ≡ some line
    → IsLine line
log_sourced-IsLine log ts level source msg line j h =
    rw (sym (json_written log ts level source msg line j h)) (
      field-IsLine (lit "{\"ts\":") ts _ (ground arith) (
        field-IsLine (lit ",\"level\":") (to_lower (level_string level)) _ (ground arith) (
          field-IsLine (lit ",\"msg\":") msg _ (ground arith)
            (field-IsLine (lit ",\"source\":") source (lit "}") (ground arith) (ground arith)))))
