-- ===== src/Database.antt =====
-- Setting a running primary up for its peer (ensureReplicationHBA, ensureAppHBA,
-- ensureRoleAndDatabase and ensureRoleAndDatabaseBlocking of src/bootstrap.go).
pub mod Ensure
pub mod Grant
use Prim.Native.Nat.{◌*◌}
use pg_guard.Prelude.{
  ℕ, zero, suc, ◌+◌, Bool, true, false, not, ◌&&◌, Option, none, some, ◌++◌, Text, lit, is_empty,
  text_eq, ltb, if◌then◌else◌,
}
use pg_guard.Config.{Config, has_peer, bootstrap_retry_interval, ensure_role_and_database_timeout}
use pg_guard.Hba.{hba_upsert_line}
use pg_guard.Node.{
  Node, Env, Result, ok, err, stuck, asked_recovery, resolved_peer, connected, located_hba,
  read_hba, wrote_hba, reloaded_config, checked_role, created_role, checked_database,
  created_database, checkpointed, peer_unresolved, hba_failed, reload_failed, not_connected,
  not_running, set_up_timed_out, role_query_failed,
}
use pg_guard.Node.Monad.{M, ◌>>=◌, ◌>>◌, pure, get, modify, ask, time_now, sleep}

-- The authentication method of the pg_hba.conf rules.
abbrev pub auth_mode : Config → Text
auth_mode cfg = if is_empty cfg.postgres_password then lit "trust" else lit "scram-sha-256"

abbrev pub replication_prefix : Config → Text
replication_prefix cfg = lit "host replication " ++ (cfg.repl_user ++ lit " ")

abbrev pub replication_rule : Config → Text → Text
replication_rule cfg address =
    replication_prefix cfg ++ (address ++ (lit "/32" ++ (lit " " ++ auth_mode cfg)))

abbrev pub app_prefix : Text
app_prefix = lit "host all all all "

abbrev pub app_rule : Text
app_rule = app_prefix ++ lit "scram-sha-256"

-- Attempts that fit into the retry budget, and one more.
abbrev pub ensure_fuel : ℕ
ensure_fuel = 31

module _ (env : Env) where
  -- The write of the new text, and the reload that follows a change.
  abbrev reload_if_written : Bool → M Result
  reload_if_written false = pure (err hba_failed)
  reload_if_written true = do
    reloaded ← ask env.reload_config reloaded_config
    pure (if reloaded then ok else err reload_failed)

  abbrev store_hba : Text → Bool → M Bool
  store_hba text false = pure false
  store_hba text true = do modify (λ s. record s { hba = text }); pure true

  abbrev write_if_changed : Option Text → M Result
  write_if_changed none = pure ok
  write_if_changed (some text) = do
    written ← ask env.write_hba_file wrote_hba
    stored ← store_hba text written
    reload_if_written stored

  -- `SHOW hba_file`, the upsert of one line, and the reload of the configuration if it changed.
  abbrev update_if_read : Text → Text → Bool → M Result
  update_if_read prefix desired false = pure (err hba_failed)
  update_if_read prefix desired true = do
    s ← get
    write_if_changed (hba_upsert_line prefix desired s.hba)

  abbrev read_if_located : Text → Text → Bool → M Result
  read_if_located prefix desired false = pure (err hba_failed)
  read_if_located prefix desired true = do
    readable ← ask env.read_hba_file read_hba
    update_if_read prefix desired readable

  unfoldable pub update_hba : Text → Text → M Result
  update_hba prefix desired = do
    located ← ask env.locate_hba located_hba
    read_if_located prefix desired located

  unfoldable pub ensure_app_hba : M Result
  ensure_app_hba = update_hba app_prefix app_rule

  module _ (cfg : Config) where
    abbrev grant_if_resolved : Option Text → M Result
    grant_if_resolved none = pure (err peer_unresolved)
    grant_if_resolved (some address) =
        update_hba (replication_prefix cfg) (replication_rule cfg address)

    unfoldable pub ensure_replication_hba : M Result
    ensure_replication_hba =
        if has_peer cfg
        then (do address ← ask env.peer_address resolved_peer; grant_if_resolved address)
        else pure ok

    -- A failed creation is only logged.
    abbrev create_role_if_missing : Option Bool → M (Unit {0})
    create_role_if_missing none = pure tt
    create_role_if_missing (some true) = pure tt
    create_role_if_missing (some false) = do made ← ask env.create_role created_role; pure tt

    ensure_role : M (Unit {0})
    ensure_role =
        if text_eq cfg.repl_user cfg.postgres_user
        then pure tt
        else (do there ← ask env.role_exists checked_role; create_role_if_missing there)

    abbrev create_database_if_missing : Option Bool → M (Unit {0})
    create_database_if_missing none = pure tt
    create_database_if_missing (some true) = pure tt
    create_database_if_missing (some false) = do
      made ← ask env.create_database created_database
      pure tt

    ensure_database : M (Unit {0})
    ensure_database =
        if not (is_empty cfg.postgres_db) && not (text_eq cfg.postgres_db (lit "postgres"))
        then (do there ← ask env.database_exists checked_database; create_database_if_missing there)
        else pure tt

    abbrev ensure_if_primary : Option Bool → M Result
    ensure_if_primary none = pure (err role_query_failed)
    ensure_if_primary (some true) = pure ok
    ensure_if_primary (some false) = do
      granted ← ensure_replication_hba
      ensure_role
      ensure_database
      flushed ← ask env.checkpoint checkpointed
      pure ok

    abbrev ensure_if_connected : Bool → M Result
    ensure_if_connected false = pure (err not_connected)
    ensure_if_connected true = do role ← ask env.recovery asked_recovery; ensure_if_primary role

    unfoldable pub ensure_role_and_database : M Result
    unfolding ensure_role ensure_database
    ensure_role_and_database = do up ← ask env.connect connected; ensure_if_connected up

    -- The retries, until one succeeds or the deadline has passed.
    abbrev retry_unless_ok : M Result → Result → M Result
    retry_unless_ok again ok = pure ok
    retry_unless_ok again (err e) = do sleep bootstrap_retry_interval; again
    retry_unless_ok again stuck = pure stuck

    abbrev ensure_before : ℕ → M Result → ℕ → M Result
    ensure_before deadline again t =
        if ltb t deadline
        then (do done ← ensure_role_and_database; retry_unless_ok again done)
        else pure (err set_up_timed_out)

    unfoldable pub ensure_loop : ℕ → ℕ → M Result
    ensure_loop zero deadline = pure stuck
    ensure_loop (suc fuel) deadline = do
      t ← time_now env
      ensure_before deadline (ensure_loop fuel deadline) t

    abbrev ensure_if_running : Bool → M Result
    ensure_if_running false = pure (err not_running)
    ensure_if_running true = do
      t ← time_now env
      ensure_loop ensure_fuel (t + ensure_role_and_database_timeout)

    -- The source returns nothing; the result tells how the loop ended.
    unfoldable pub ensure_role_and_database_blocking : M Result
    ensure_role_and_database_blocking = do s ← get; ensure_if_running s.postgres_running
