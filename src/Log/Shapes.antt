-- ===== src/Log/Shapes.antt =====
-- The shape of a line of postgres, and what becomes of it (src/supervisor.go).
use pg_guard.Prelude.{
  ◌≡◌, ◌↔◌, refl, Bool, true, false, ◌&&◌, ◌||◌, some, [], ◌∷◌, ◌++◌, Text, lit, text_eq,
  text_eq-eq, is_empty, strip_prefix, ◌==◌, if◌then◌else◌, All, arith,
}
use pg_guard.Node.{Node}
use pg_guard.Log.{log_error, log_warn, log_info, to_upper}
use pg_guard.Log.Severity.{
  after_first, before_byte, has_blank, is_failure, is_noise, noises, postgres_log_level,
  classify_postgres_line,
}

-- A closing bracket followed by a blank ends the head of a line.
abbrev pub head_end : Text
head_end = lit "] "

-- No bracket closes in the head.
abbrev pub IsHead : Text → Type 0
IsHead = All (λ c. (93 == c) ≡ false)

-- A severity: capitals, digits and the like, with no blank and no colon, and not empty.
pub record IsSeverity (token : Text) : Type 0 where
  pub some_byte : is_empty token ≡ false
  pub capital : text_eq token (to_upper token) ≡ true
  pub solid : has_blank token ≡ false
  pub before_colon : All (λ c. (c == 58) ≡ false) token

after_first-head :
    (head rest : Text) → IsHead head → after_first head_end (head ++ (head_end ++ rest)) ≡ some rest
unfolding after_first strip_prefix
after_first-head [] rest h = ground arith
after_first-head (c ∷ head) rest (h, hs) = rw (h, after_first-head head rest hs) refl

before_byte-token :
    (token rest : Text)
    → All (λ c. (c == 58) ≡ false) token
    → before_byte 58 (token ++ (58 ∷ rest)) ≡ some token
unfolding before_byte
before_byte-token [] rest h = ground arith
before_byte-token (c ∷ token) rest (h, hs) = rw (h, before_byte-token token rest hs) refl

-- A line of postgres: its head, the severity, and the message.
abbrev pub postgres_line : Text → Text → Text → Text
postgres_line head token message = head ++ (head_end ++ (token ++ (58 ∷ message)))

severity_read :
    (head token message : Text)
    → IsHead head
    → IsSeverity token
    → postgres_log_level (postgres_line head token message) ≡ token
unfolding postgres_log_level
severity_read head token message h t =
    rw
      (
        after_first-head head (token ++ (58 ∷ message)) h,
        before_byte-token token message t.before_colon,
        t.some_byte,
        t.capital,
        t.solid,
      )
      refl

warning_is_no_failure :
    (token : Text) → text_eq token (lit "WARNING") ≡ true → is_failure token ≡ false
unfolding text_eq
warning_is_no_failure token h = rw (text_eq-eq token (lit "WARNING") h) refl

-- The cases of the level, with the tests as Booleans.
level_cases :
    (failure expected warning : Bool)
    → (warning ≡ true → failure ≡ false)
    → let level =
        if failure
        then (if expected then log_info else log_error)
        else (if warning then log_warn else log_info) in
      ((level ≡ log_error) ↔ ((failure ≡ true) × (expected ≡ false)))
      × ((level ≡ log_warn) ↔ (warning ≡ true))
level_cases failure expected warning h = ground (arith, h)

-- A line of postgres is logged as an error exactly if its severity is FATAL, PANIC or ERROR, unless
-- a coordinated shutdown or switchover is under way and the line holds one of the two messages that it
-- brings about; it is logged as a warning exactly if its severity is WARNING. The line is any head with
-- no closing bracket, the bracket, any severity that is in capitals with no blank and no colon, and any
-- message.
pub severity_decides :
    (s : Node) (head token message : Text)
    → IsHead head
    → IsSeverity token
    → let line = postgres_line head token message in
      let expected = (s.shutdown_in_progress || s.switchover_in_progress) && is_noise noises line in
      ((classify_postgres_line s line ≡ log_error)
        ↔ ((is_failure token ≡ true) × (expected ≡ false)))
      × ((classify_postgres_line s line ≡ log_warn) ↔ (text_eq token (lit "WARNING") ≡ true))
unfolding classify_postgres_line
severity_decides s head token message h t =
    rw (severity_read head token message h t) (
      level_cases (is_failure token) _ (text_eq token (lit "WARNING"))
        (warning_is_no_failure token))
