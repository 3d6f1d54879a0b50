-- ===== src/Queries/Strings.antt =====
-- What libpq reads in the connection strings that the program makes (src/db.go, src/rewind.go).
use pg_guard.Prelude.{
  ℕ, Bool, true, false, not, ◌&&◌, none, some, [], ◌∷◌, ◌++◌, ◌≡◌, refl, ap, ◌∙◌, Text, lit,
  append_assoc, is_empty, All, ◌==◌, arith,
}
use pg_guard.Config.{Config}
use pg_guard.Queries.{itoa, pool_string, peer_string, rewind_source, standby_conninfo}
use pg_guard.Queries.Conninfo.{
  Pairs, step_in, between, broken, in_name, before_value, read_from, ended, read_conninfo,
}
use pg_guard.Queries.Values.{
  at, add, Plain, is_plain, read_from-Plain, read_from-dsn_quote, itoa-Plain,
}

-- libpq reads the connection string of the pool as it is meant, whatever the user's name and the
-- password hold: the local postgres at the configured port, that user, that password, the
-- maintenance database, without TLS.
pub pool_string_reads :
    (cfg : Config)
    → read_conninfo (pool_string cfg)
      ≡ some (
          (lit "host", lit "127.0.0.1")
          ∷ ((lit "port", itoa cfg.pg_port)
              ∷ ((lit "user", cfg.postgres_user)
                  ∷ ((lit "password", cfg.postgres_password)
                      ∷ ((lit "dbname", lit "postgres")
                          ∷ ((lit "sslmode", lit "disable")
                              ∷ ((lit "connect_timeout", lit "5") ∷ [])))))))
unfolding read_conninfo pool_string
pool_string_reads cfg = ap ended (
    read_from-Plain (lit "port") (itoa cfg.pg_port) _ _ (itoa-Plain cfg.pg_port)
    ∙ (read_from-dsn_quote (lit "user") cfg.postgres_user _ _
        ∙ read_from-dsn_quote (lit "password") cfg.postgres_password _ _))

abbrev pub peer_pairs : Config → Pairs
peer_pairs cfg =
    (lit "host", cfg.peer_host)
    ∷ ((lit "port", itoa cfg.pg_port)
        ∷ ((lit "user", cfg.repl_user)
            ∷ ((lit "password", cfg.repl_password)
                ∷ ((lit "dbname", cfg.postgres_db) ∷ ((lit "sslmode", lit "disable") ∷ [])))))

-- The strings that pg_rewind and the standby are given are read as they are meant if the host, the
-- user, the password and the database are not empty and have no blank, quote or backslash: they
-- are put in without quotes.
pub peer_strings_read :
    (cfg : Config)
    → Plain cfg.peer_host
    → Plain cfg.repl_user
    → Plain cfg.repl_password
    → Plain cfg.postgres_db
    → (read_conninfo (standby_conninfo cfg) ≡ some (peer_pairs cfg))
      × (read_conninfo (rewind_source cfg)
          ≡ some (peer_pairs cfg ++ ((lit "connect_timeout", lit "5") ∷ [])))
unfolding read_conninfo standby_conninfo rewind_source
peer_strings_read cfg host user password db = (ap ended (chain _), ap ended (chain _))
  where
    chain :
        (rest : Text)
        → read_from (at [] between) (peer_string cfg (32 ∷ rest))
          ≡ read_from
              (at
                ((lit "host", cfg.peer_host)
                  ∷ ((lit "port", itoa cfg.pg_port)
                      ∷ ((lit "user", cfg.repl_user)
                          ∷ ((lit "password", cfg.repl_password)
                              ∷ ((lit "dbname", cfg.postgres_db) ∷ [])))))
                between)
              rest
    chain rest =
        read_from-Plain (lit "host") cfg.peer_host _ _ host
        ∙ (read_from-Plain (lit "port") (itoa cfg.pg_port) _ _ (itoa-Plain cfg.pg_port)
            ∙ (read_from-Plain (lit "user") cfg.repl_user _ _ user
                ∙ (read_from-Plain (lit "password") cfg.repl_password _ _ password
                    ∙ read_from-Plain (lit "dbname") cfg.postgres_db _ _ db)))

-- A byte of a word that is no pair: plain, and no equals sign.
abbrev pub is_word_byte : ℕ → Bool
is_word_byte c = is_plain c && not (c == 61)

read_from-in_name :
    (key w rest : Text) (ps : Pairs)
    → All (λ c. is_word_byte c ≡ true) w
    → read_from (at ps (in_name key)) (w ++ (32 ∷ (100 ∷ rest))) ≡ read_from (at ps broken) rest
unfolding read_from
read_from-in_name key [] rest ps h = refl
read_from-in_name key (c ∷ w) rest ps h =
    ap (λ r. read_from r (w ++ (32 ∷ (100 ∷ rest)))) (in_word c h.0)
    ∙ read_from-in_name (key ++ (c ∷ [])) w rest ps h.1
  where
    in_word :
        (c : ℕ)
        → is_word_byte c ≡ true
        → step_in (in_name key) c ps ≡ at ps (in_name (key ++ (c ∷ [])))
    in_word c h = ground arith

read_from-word :
    (w rest : Text) (ps : Pairs)
    → All (λ c. is_word_byte c ≡ true) w
    → is_empty w ≡ false
    → read_from (at ps between) (w ++ (32 ∷ (100 ∷ rest))) ≡ read_from (at ps broken) rest
unfolding read_from
read_from-word [] rest ps h some_byte = absurd (ground (arith, some_byte))
read_from-word (c ∷ w) rest ps h some_byte =
    ap (λ r. read_from r (w ++ (32 ∷ (100 ∷ rest)))) (begins c h.0)
    ∙ read_from-in_name (c ∷ []) w rest ps h.1
  where
    begins : (c : ℕ) → is_word_byte c ≡ true → step_in between c ps ≡ at ps (in_name (c ∷ []))
    begins c h = ground arith

read_from-broken : (s : Text) (ps : Pairs) → ended (read_from (at ps broken) s) ≡ none
unfolding read_from
read_from-broken [] ps = refl
read_from-broken (c ∷ s) ps = read_from-broken s ps

abbrev WithBlank : Text → Text → Text → Type 0
WithBlank password p w =
    (password ≡ p ++ (32 ∷ w)) × Plain p × All (λ c. is_word_byte c ≡ true) w × (is_empty w ≡ false)

-- A replication password that is two words with a blank between them makes both strings unreadable,
-- where the host and the user are plain: libpq refuses the string that pg_rewind is given and the
-- one that the standby is left with.
pub blank_password_refused :
    (cfg : Config) (p w : Text)
    → Plain cfg.peer_host
    → Plain cfg.repl_user
    → WithBlank cfg.repl_password p w
    → (read_conninfo (standby_conninfo cfg) ≡ none) × (read_conninfo (rewind_source cfg) ≡ none)
unfolding read_conninfo standby_conninfo rewind_source
blank_password_refused cfg p w host user h = (chain _, chain _)
  where
    words :
        (ps : Pairs) (rest : Text)
        → read_from
            (at ps (before_value (lit "password")))
            (cfg.repl_password ++ (lit " dbname=" ++ rest))
          ≡ read_from (at (add ps (lit "password") p) broken) (lit "bname=" ++ rest)
    words ps rest =
        rw (h.0, append_assoc p (32 ∷ w) (lit " dbname=" ++ rest))
          (read_from-Plain (lit "password") p _ ps h.1
            ∙ read_from-word w (lit "bname=" ++ rest) _ h.2 h.3)

    chain : (rest : Text) → ended (read_from (at [] between) (peer_string cfg rest)) ≡ none
    chain rest =
        ap ended (
          read_from-Plain (lit "host") cfg.peer_host _ _ host
          ∙ (read_from-Plain (lit "port") (itoa cfg.pg_port) _ _ (itoa-Plain cfg.pg_port)
              ∙ (read_from-Plain (lit "user") cfg.repl_user _ _ user
                  ∙ words _ (cfg.postgres_db ++ rest))))
        ∙ read_from-broken (lit "bname=" ++ (cfg.postgres_db ++ rest)) (
            (lit "host", cfg.peer_host)
            ∷ ((lit "port", itoa cfg.pg_port)
                ∷ ((lit "user", cfg.repl_user) ∷ ((lit "password", p) ∷ []))))
