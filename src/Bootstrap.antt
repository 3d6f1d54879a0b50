-- ===== src/Bootstrap.antt =====
-- The first start of a cluster (src/bootstrap.go): who initialises it, and who clones it.
pub mod Roles
pub mod Ends
use Prim.Native.Nat.{◌*◌}
use mathlib.Core.List.{reverse}
use pg_guard.Prelude.{
  ℕ, zero, suc, ◌+◌, Bool, true, false, not, ◌&&◌, ◌||◌, Option, none, some, ◌++◌, Text, lit,
  is_empty, has_suffix, ltb, if◌then◌else◌,
}
use pg_guard.Config.{
  Config, BootstrapRole, auto, as_primary, as_standby, has_peer, bootstrap_primary_tiebreak_timeout,
  bootstrap_standby_tiebreak_timeout, bootstrap_poll_interval, bootstrap_retry_interval,
}
use pg_guard.Node.{
  Env, Role, Error, Result, ok, err, stuck, checked_version_file, staged_password, ran_initdb,
  resolved_peer, wrote_hba, wrote_postgres_conf, looked_up_hostname, staging_failed, initdb_failed,
  hba_failed, conf_failed, peer_never_primary, basebackup_failed,
}
use pg_guard.Node.Monad.{M, ◌>>=◌, ◌>>◌, pure, modify, ask, time_now, sleep}
use pg_guard.Peer.{fetch_peer_status}
use pg_guard.Handover.{is_primary}
use pg_guard.Database.{auth_mode}
use pg_guard.Rewind.{run_basebackup}

-- The lines that are appended to the pg_hba.conf of a new cluster.
pub bootstrap_rules : Config → Text → Text
bootstrap_rules cfg address =
    lit "\n# added by pg-guard bootstrap\nhost replication "
    ++ (cfg.repl_user
        ++ (lit " "
            ++ (address
                ++ (lit " "
                    ++ (auth_mode cfg
                        ++ (lit "\nhost all all all " ++ (auth_mode cfg ++ lit "\n")))))))

-- Whom the replication rule lets in: everybody without a peer, else the peer's address, or its name
-- if it does not resolve.
abbrev pub peer_scope : Config → Option Text → Text
peer_scope cfg none = cfg.peer_host
peer_scope cfg (some address) = address ++ lit "/32"

-- Rounds that fit into the deadlines, and two more.
abbrev pub standby_fuel : ℕ
standby_fuel = 62

abbrev pub tiebreak_fuel : ℕ
tiebreak_fuel = 17

module _ (env : Env) (cfg : Config) where
  unfoldable pub needs_bootstrap : M Bool
  needs_bootstrap = do there ← ask env.version_file checked_version_file; pure (not there)

  abbrev append_rules : Text → M Bool
  append_rules address = do
    written ← ask env.write_hba_file wrote_hba
    modify (λ s. if written then record s { hba = s.hba ++ bootstrap_rules cfg address } else s)
    pure written

  write_bootstrap_hba : M Bool
  write_bootstrap_hba =
      if has_peer cfg
      then (do address ← ask env.peer_address resolved_peer; append_rules (peer_scope cfg address))
      else append_rules (lit "all")

  abbrev finish_if_hba : Bool → M Result
  finish_if_hba false = pure (err hba_failed)
  finish_if_hba true = do
    written ← ask env.write_postgres_conf wrote_postgres_conf
    pure (if written then ok else err conf_failed)

  abbrev finish_if_initdb : Bool → M Result
  finish_if_initdb false = pure (err initdb_failed)
  finish_if_initdb true = do
    modify (λ s. record s { hba = env.initial_hba s.trace })
    written ← write_bootstrap_hba
    finish_if_hba written

  abbrev initdb_if_staged : Bool → M Result
  initdb_if_staged false = pure (err staging_failed)
  initdb_if_staged true = do done ← ask env.initdb ran_initdb; finish_if_initdb done

  -- The password file is written only if there is a password.
  abbrev stage_password : M Bool
  stage_password =
      if is_empty cfg.postgres_password then pure true else ask env.stage_password staged_password

  unfoldable pub bootstrap_as_primary : M Result
  unfolding write_bootstrap_hba
  bootstrap_as_primary = do staged ← stage_password; initdb_if_staged staged

  -- One more round after a pause, or the error once the deadline has passed.
  abbrev retry_before : ℕ → Error → M Result → M Result
  retry_before deadline e again = do
    t ← time_now env
    if ltb deadline t then pure (err e) else (do sleep bootstrap_retry_interval; again)

  abbrev clone_outcome : ℕ → M Result → Result → M Result
  clone_outcome deadline again ok = pure ok
  clone_outcome deadline again (err e) = retry_before deadline e again
  clone_outcome deadline again stuck = pure stuck

  abbrev clone_if_primary : ℕ → M Result → Option Role → M Result
  clone_if_primary deadline again status =
      if is_primary status
      then (do cloned ← run_basebackup env; clone_outcome deadline again cloned)
      else retry_before deadline peer_never_primary again

  unfoldable pub standby_loop : ℕ → ℕ → M Result
  standby_loop zero deadline = pure stuck
  standby_loop (suc fuel) deadline = do
    status ← fetch_peer_status env cfg
    clone_if_primary deadline (standby_loop fuel deadline) status

  unfoldable pub bootstrap_as_standby_with_retry : M Result
  bootstrap_as_standby_with_retry = do
    t ← time_now env
    standby_loop standby_fuel (t + bootstrap_standby_tiebreak_timeout)

  -- The short check of the "-0" node: whether the peer is primary already.
  abbrev tiebreak_again : ℕ → M Result → M Result
  tiebreak_again deadline again = do
    t ← time_now env
    if ltb deadline t then bootstrap_as_primary else (do sleep bootstrap_poll_interval; again)

  abbrev tiebreak_by : ℕ → M Result → Option Role → M Result
  tiebreak_by deadline again status =
      if is_primary status then bootstrap_as_standby_with_retry else tiebreak_again deadline again

  unfoldable pub tiebreak_loop : ℕ → ℕ → M Result
  tiebreak_loop zero deadline = pure stuck
  tiebreak_loop (suc fuel) deadline = do
    status ← fetch_peer_status env cfg
    tiebreak_by deadline (tiebreak_loop fuel deadline) status

  -- The second node of a pair, by its name.
  abbrev pub is_ordinal_zero : Option Text → Bool
  is_ordinal_zero none = true
  is_ordinal_zero (some name) = is_empty cfg.peer_host || not (has_suffix (lit "-1") name)

  abbrev as_first_node : M Result
  as_first_node =
      if has_peer cfg
      then (do
        t ← time_now env
        tiebreak_loop tiebreak_fuel (t + bootstrap_primary_tiebreak_timeout))
      else bootstrap_as_primary

  abbrev by_ordinal : Option Text → M Result
  by_ordinal name = if is_ordinal_zero name then as_first_node else bootstrap_as_standby_with_retry

  abbrev by_role : BootstrapRole → M Result
  by_role as_primary = bootstrap_as_primary
  by_role as_standby = run_basebackup env
  by_role auto = do name ← ask env.hostname looked_up_hostname; by_ordinal name

  unfoldable pub run_bootstrap : M Result
  run_bootstrap = by_role cfg.bootstrap_role
