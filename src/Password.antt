-- ===== src/Password.antt =====
-- The command set-password (runSetPassword, connectLocalSocket and readPasswordFromStdin of src/setpassword.go).
pub mod Statements
use pg_guard.Prelude.{
  ℕ, Bool, true, false, not, ◌||◌, Option, none, some, List, [], ◌∷◌, ◌++◌, Text, lit, text_eq,
  is_empty, ◌==◌, if◌then◌else◌,
}
use pg_guard.Config.{Config}
use pg_guard.Node.{Env, Result, ok, err, stuck}
use pg_guard.Node.Monad.{M, ◌>>=◌, ◌>>◌, pure}
use pg_guard.Quoting.{pg_ident, pg_literal, dsn_quote}
use pg_guard.Queries.{itoa}
use pg_guard.Database.{ensure_app_hba}

-- What is typed, up to the first newline or to the end (none is an error), the connection strings with
-- which postgres is reached, and what it answers.
pub record Terminal : Type 0 where
  pub stdin : Option Text
  pub connects : Text → Bool
  pub recovery : Option Bool
  pub alters : Text → Bool

pub data Failure : Type 0 where
  unreadable empty_password no_socket role_unknown not_altered hba_not_upgraded : Failure

-- The line with its newline, if it has one.
unfoldable pub first_line : Text → Text
first_line [] = []
first_line (c ∷ s) = let rest = first_line s in if c == 10 then c ∷ [] else c ∷ rest

abbrev keep_unless_end : ℕ → Text → Text
keep_unless_end c [] = if c == 13 || c == 10 then [] else c ∷ []
keep_unless_end c (d ∷ s) = c ∷ d ∷ s

-- strings.TrimRight(line, "\r\n")
unfoldable pub trim_line_end : Text → Text
trim_line_end [] = []
trim_line_end (c ∷ s) = keep_unless_end c (trim_line_end s)

abbrev password_of : Option Text → Option Text
password_of none = none
password_of (some typed) = some (trim_line_end (first_line typed))

unfoldable pub read_password_from_stdin : Terminal → Option Text
unfolding trim_line_end first_line
read_password_from_stdin w = password_of w.stdin

unfoldable pub alter_role : Text → Text → Text
unfolding pg_ident pg_literal
alter_role role password =
    lit "ALTER ROLE " ++ (pg_ident role ++ (lit " PASSWORD " ++ pg_literal password))

abbrev local_socket_dirs : List Text
local_socket_dirs = lit "/var/run/postgresql" ∷ (lit "/tmp" ∷ [])

abbrev socket_string : Config → Text → Text
socket_string cfg dir =
    lit "host="
    ++ dir
    ++ lit " port="
    ++ itoa cfg.pg_port
    ++ lit " user="
    ++ dsn_quote cfg.postgres_user
    ++ lit " dbname=postgres sslmode=disable connect_timeout=5"

-- The first directory whose socket is reached.
abbrev first_connected : (Text → Bool) → Config → List Text → Option Text
first_connected connects cfg [] = none
first_connected connects cfg (dir ∷ dirs) =
    let rest = first_connected connects cfg dirs in
    if connects (socket_string cfg dir) then some dir else rest

unfoldable pub connect_local_socket : (Text → Bool) → Config → Option Text
connect_local_socket connects cfg = first_connected connects cfg local_socket_dirs

-- The ALTER ROLE statements that were sent, in order, and why the command failed, if it did.
abbrev pub Change : Type 0
Change = List Text × Option Failure

module _ (env : Env) (cfg : Config) (w : Terminal) where
  abbrev after_upgrade : List Text → Result → Change
  after_upgrade sent ok = (sent, none)
  after_upgrade sent (err e) = (sent, some hba_not_upgraded)
  after_upgrade sent stuck = (sent, some hba_not_upgraded)

  abbrev upgrade : List Text → M Change
  upgrade sent = do done ← ensure_app_hba env; pure (after_upgrade sent done)

  abbrev alter_replication : Text → List Text → M Change
  alter_replication statement sent =
      if w.alters statement
      then upgrade (sent ++ (statement ∷ []))
      else pure (sent ++ (statement ∷ []), some not_altered)

  abbrev alter_roles : Text → M Change
  alter_roles password =
      let statement = alter_role cfg.postgres_user password in
      if not (w.alters statement)
      then pure (statement ∷ [], some not_altered)
      else if text_eq cfg.repl_user cfg.postgres_user
      then upgrade (statement ∷ [])
      else alter_replication (alter_role cfg.repl_user password) (statement ∷ [])

  abbrev by_role : Option Bool → Text → M Change
  by_role none password = pure ([], some role_unknown)
  by_role (some true) password = upgrade []
  by_role (some false) password = alter_roles password

  abbrev over_socket : Option Text → Text → M Change
  over_socket none password = pure ([], some no_socket)
  over_socket (some dir) password = by_role w.recovery password

  abbrev change_to : Option Text → M Change
  change_to none = pure ([], some unreadable)
  change_to (some password) =
      if is_empty password
      then pure ([], some empty_password)
      else over_socket (connect_local_socket w.connects cfg) password

  unfoldable pub run_set_password : M Change
  unfolding alter_role text_eq read_password_from_stdin
  run_set_password = change_to (read_password_from_stdin w)
