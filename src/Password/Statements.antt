-- ===== src/Password/Statements.antt =====
-- What the command set-password sends to postgres (src/setpassword.go).
use pg_guard.Prelude.{
  ◌≡◌, ◌⊎◌, inl, inr, refl, ap, sym, ◌∙◌, true, false, Option-cases, Option, none, some, List, [],
  ◌∷◌, ◌++◌, map, All, Text, lit, text_eq, is_empty, strip_prefix, strip_prefix-append,
  if◌then◌else◌, arith,
}
use pg_guard.Config.{Config}
use pg_guard.Node.{Node, Env, ok}
use pg_guard.Quoting.{pg_ident, pg_literal, double_quote, single_quote}
use pg_guard.Quoting.Reading.{sql_value, sql_quoting_safe}
use pg_guard.Password.{Terminal, alter_role, read_password_from_stdin, run_set_password}
use pg_guard.Database.{ensure_app_hba}

abbrev whole_value : Text → Option (Text × Text) → Option (Text × Text)
whole_value role none = none
whole_value role (some (password, rest)) = if is_empty rest then some (role, password) else none

abbrev password_then : Text → Option Text → Option (Text × Text)
password_then role none = none
password_then role (some rest) = whole_value role (sql_value single_quote rest)

abbrev role_then : Option (Text × Text) → Option (Text × Text)
role_then none = none
role_then (some (role, rest)) = password_then role (strip_prefix (lit " PASSWORD ") rest)

abbrev quoted_role : Option Text → Option (Text × Text)
quoted_role none = none
quoted_role (some rest) = sql_value double_quote rest

-- How SQL reads a statement that gives a role its password: the role and the password, with nothing
-- after them.
unfoldable pub read_alter : Text → Option (Text × Text)
unfolding strip_prefix
read_alter statement = role_then (quoted_role (strip_prefix (lit "ALTER ROLE ") statement))

append_nil : (s : Text) → s ++ [] ≡ s
append_nil [] = refl
append_nil (c ∷ s) = ap (λ t. c ∷ t) (append_nil s)

literal_read : (s : Text) → sql_value single_quote (pg_literal s) ≡ some (s, [])
literal_read s =
    ap (sql_value single_quote) (sym (append_nil (pg_literal s)))
    ∙ (sql_quoting_safe s [] refl refl).1

read_alter-alter_role :
    (role password : Text) → read_alter (alter_role role password) ≡ some (role, password)
unfolding read_alter alter_role
read_alter-alter_role role password =
    let rest = lit " PASSWORD " ++ pg_literal password in
    ap (λ o. role_then (quoted_role o))
      (strip_prefix-append (lit "ALTER ROLE ") (pg_ident role ++ rest))
    ∙ (ap role_then (sql_quoting_safe role rest refl refl).0
        ∙ (ap (password_then role) (strip_prefix-append (lit " PASSWORD ") (pg_literal password))
            ∙ ap (whole_value role) (literal_read password)))

-- The roles whose password is changed: the replication role only where it is another one.
abbrev pub roles : Config → List Text
roles cfg =
    if text_eq cfg.repl_user cfg.postgres_user
    then cfg.postgres_user ∷ []
    else cfg.postgres_user ∷ (cfg.repl_user ∷ [])

abbrev pub changes : Text → List Text → List (Option (Text × Text))
changes password [] = []
changes password (role ∷ rs) = some (role, password) ∷ changes password rs

module _ (env : Env) (cfg : Config) (w : Terminal) where
  -- A change of the password that reports success was given a password that is not empty, has found
  -- out the role of the node, and has upgraded pg_hba.conf with success. On a standby it has sent no
  -- ALTER ROLE. On a primary it has sent one for each role, which postgres accepted and which SQL
  -- reads as giving this role that password, whatever the names and the password hold, with nothing
  -- after it.
  pub password_changed :
      (s : Node) (sent : List Text)
      → (run_set_password env cfg w s).0 ≡ (sent, none)
      → (password : Text) × (read_password_from_stdin w ≡ some password)
        × (is_empty password ≡ false)
        × ((ensure_app_hba env s).0 ≡ ok)
        × All (λ statement. w.alters statement ≡ true) sent
        × (((w.recovery ≡ some true) × (sent ≡ []))
            ⊎ ((w.recovery ≡ some false) × (map read_alter sent ≡ changes password (roles cfg))))
  unfolding run_set_password
  password_changed s sent h = elim (Option-cases (read_password_from_stdin w)) [
    | inl e ↦ absurd (ground (arith, h, e))
    | inr (password, e) ↦ (
      password,
      e,
      ground (arith, h, e),
      ground (arith, h, e),
      ground (arith, h, e),
      ground (
        arith,
        h,
        e,
        read_alter-alter_role cfg.postgres_user password,
        read_alter-alter_role cfg.repl_user password,
      ),
    )
  ]
