-- ===== src/Queries.antt =====
-- Questions to the local postgres (src/db.go) and the connection strings of the program (newPool of
-- src/db.go, runRewind and configureAsStandby of src/rewind.go).
pub mod Conninfo
pub mod Values
pub mod Strings
use Prim.Native.Nat.{◌%◌, ◌/◌}
use pg_guard.Prelude.{
  ℕ, zero, suc, ℤ, ◌+◌, Bool, true, false, Option, none, some, List, [], ◌∷◌, ◌++◌, Text, lit, ltb,
  if◌then◌else◌,
}
use pg_guard.Config.{Config}
use pg_guard.Quoting.{dsn_quote}

-- The decimal digits of a number, put in front of what stands behind them. An int has 19 at most.
pub digits : ℕ → ℕ → Text → Text
digits zero n s = s
digits (suc fuel) n s =
    let d = 48 + n % 10 in
    let more = digits fuel (n / 10) (d ∷ s) in if ltb n 10 then d ∷ s else more

-- `%d` and strconv.Itoa
unfoldable pub itoa : ℤ → Text
unfolding digits
itoa (ℤ.pos n) = digits 20 n []
itoa (ℤ.negsuc n) = lit "-" ++ digits 20 (suc n) []

unfoldable pub pool_string : Config → Text
pool_string cfg =
    lit "host=127.0.0.1 port="
    ++ (itoa cfg.pg_port
        ++ (lit " user="
            ++ (dsn_quote cfg.postgres_user
                ++ (lit " password="
                    ++ (dsn_quote cfg.postgres_password
                        ++ lit " dbname=postgres sslmode=disable connect_timeout=5")))))

-- The part that runRewind and configureAsStandby share.
abbrev pub peer_string : Config → Text → Text
peer_string cfg rest =
    lit "host="
    ++ (cfg.peer_host
        ++ (lit " port="
            ++ (itoa cfg.pg_port
                ++ (lit " user="
                    ++ (cfg.repl_user
                        ++ (lit " password="
                            ++ (cfg.repl_password
                                ++ (lit " dbname=" ++ (cfg.postgres_db ++ rest)))))))))

unfoldable pub rewind_source : Config → Text
rewind_source cfg = peer_string cfg (lit " sslmode=disable connect_timeout=5")

unfoldable pub standby_conninfo : Config → Text
standby_conninfo cfg = peer_string cfg (lit " sslmode=disable")

-- The line that configureAsStandby appends to postgresql.auto.conf.
unfoldable pub primary_conninfo_line : Config → Text
unfolding standby_conninfo
primary_conninfo_line cfg =
    lit "\nprimary_conninfo = " ++ (dsn_quote (standby_conninfo cfg) ++ lit "\n")

-- What postgres answers to a statement with its arguments: a value of the column's type, or an
-- error.
pub record Pool : Type 0 where
  pub pings : Bool
  pub bool_of : Text → Option Bool
  pub int_of : Text → List Text → Option ℤ
  pub text_of : Text → Option Text

abbrev pub is_positive : ℤ → Bool
is_positive (ℤ.pos n) = ltb 0 n
is_positive (ℤ.negsuc n) = false

-- A negative lag is none.
abbrev pub clamped : Option ℤ → Option ℤ
clamped none = none
clamped (some (ℤ.pos n)) = some (ℤ.pos n)
clamped (some (ℤ.negsuc n)) = some (ℤ.pos 0)

abbrev pub any_rows : Option ℤ → Option Bool
any_rows none = none
any_rows (some n) = some (is_positive n)

module _ (pool : Pool) where
  unfoldable pub is_in_recovery : Option Bool
  is_in_recovery = pool.bool_of (lit "SELECT pg_is_in_recovery()")

  unfoldable pub server_version : Option Text
  server_version = pool.text_of (lit "SHOW server_version")

  unfoldable pub replication_lag_bytes : Bool → Option ℤ
  replication_lag_bytes in_recovery = clamped (
      if in_recovery
      then pool.int_of
          (lit
            "SELECT COALESCE(pg_wal_lsn_diff(pg_last_wal_receive_lsn(), pg_last_wal_replay_lsn()), 0)::bigint")
          []
      else pool.int_of
          (lit
            "SELECT COALESCE(MAX(pg_wal_lsn_diff(pg_current_wal_lsn(), replay_lsn)), 0)::bigint FROM pg_stat_replication")
          [])

  unfoldable pub replication_connected_count : Option ℤ
  replication_connected_count = pool.int_of (lit "SELECT count(*) FROM pg_stat_replication") []

  unfoldable pub replication_connected : Bool → Option Bool
  unfolding replication_connected_count
  replication_connected in_recovery =
      if in_recovery
      then any_rows (pool.int_of (lit "SELECT count(*) FROM pg_stat_wal_receiver") [])
      else any_rows replication_connected_count

  unfoldable pub connection_count : Option ℤ
  connection_count = pool.int_of (lit "SELECT count(*) FROM pg_stat_activity") []

  unfoldable pub database_size_bytes : Text → Option ℤ
  database_size_bytes db_name = pool.int_of (lit "SELECT pg_database_size($1)") (db_name ∷ [])

  -- Whether the promotion was confirmed; false is each of its errors.
  abbrev is_promoted : Option Bool → Bool
  is_promoted none = false
  is_promoted (some promoted) = promoted

  unfoldable pub promote_by_sql : Bool
  promote_by_sql = is_promoted (pool.bool_of (lit "SELECT pg_promote()"))
