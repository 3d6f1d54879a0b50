-- ===== src/Bootstrap/Roles.antt =====
-- Who may initialise a new cluster (src/bootstrap.go).
use pg_guard.Prelude.{
  ℕ, zero, suc, ◌+◌, ◌≤◌, ◌<◌, ◌≡◌, ◌≢◌, ◌⊎◌, true, some, arith, has_suffix, lit, Text,
}
use pg_guard.Config.{
  Config, auto, bootstrap_retry_interval, bootstrap_poll_interval,
  bootstrap_primary_tiebreak_timeout, bootstrap_standby_tiebreak_timeout, has_peer,
}
use pg_guard.Node.{Node, Env, stuck, slept, looked_up_hostname}
use pg_guard.Node.Monad.{log}
use pg_guard.Node.History.{IsClock, initdb_runs, wipes_are_safe, last_status}
use pg_guard.Peer.{fetch_peer_status}
use pg_guard.Rewind.{run_basebackup, rejoin_as_standby}
use pg_guard.Bootstrap.{
  bootstrap_as_primary, standby_loop, standby_fuel, bootstrap_as_standby_with_retry, tiebreak_loop,
  tiebreak_fuel, run_bootstrap,
}

module _ (env : Env) where
  -- PGDATA is emptied only right after the local port was found closed (the directory is made in
  -- between), and no cluster is initialised by a clone.
  pub run_basebackup_frame :
      (s : Node)
      → let s' = (run_basebackup env s).1 in
        (initdb_runs s'.trace ≡ initdb_runs s.trace)
        × (wipes_are_safe s'.trace ≡ wipes_are_safe s.trace)
        × ((run_basebackup env s).0 ≢ stuck)
        × (s'.postgres_running ≡ s.postgres_running)
        × (s'.current_child ≡ s.current_child)
  unfolding run_basebackup
  run_basebackup_frame s = ground arith

  pub rejoin_frame :
      (s : Node)
      → let s' = (rejoin_as_standby env s).1 in
        (initdb_runs s'.trace ≡ initdb_runs s.trace)
        × (wipes_are_safe s'.trace ≡ wipes_are_safe s.trace)
        × ((rejoin_as_standby env s).0 ≢ stuck)
        × (s'.postgres_running ≡ s.postgres_running)
        × (s'.current_child ≡ s.current_child)
        × (last_status s'.trace ≡ last_status s.trace)
  unfolding rejoin_as_standby run_basebackup
  rejoin_frame s = ground arith

  module _ (cfg : Config) where
    fetch_frame :
        (s : Node)
        → let s' = (fetch_peer_status env cfg s).1 in
          (initdb_runs s'.trace ≡ initdb_runs s.trace)
          × (wipes_are_safe s'.trace ≡ wipes_are_safe s.trace)
    unfolding fetch_peer_status
    fetch_frame s = ground arith

    standby_loop_frame :
        (fuel deadline : ℕ) (s : Node)
        → let s' = (standby_loop env cfg fuel deadline s).1 in
          (initdb_runs s'.trace ≡ initdb_runs s.trace)
          × (wipes_are_safe s'.trace ≡ wipes_are_safe s.trace)
    unfolding standby_loop
    standby_loop_frame zero deadline s = ground arith
    standby_loop_frame (suc fuel) deadline s =
        let t = (fetch_peer_status env cfg s).1 in
        let u = (run_basebackup env t).1 in
        ground (
          arith,
          fetch_frame s,
          run_basebackup_frame t,
          standby_loop_frame fuel deadline (log (slept bootstrap_retry_interval) t),
          standby_loop_frame fuel deadline (log (slept bootstrap_retry_interval) u),
        )

    pub primary_frame :
        (s : Node)
        → let s' = (bootstrap_as_primary env cfg s).1 in
          (wipes_are_safe s'.trace ≡ wipes_are_safe s.trace)
          × ((bootstrap_as_primary env cfg s).0 ≢ stuck)
    unfolding bootstrap_as_primary
    primary_frame s = ground arith

    retry_frame :
        (s : Node)
        → let s' = (bootstrap_as_standby_with_retry env cfg s).1 in
          (initdb_runs s'.trace ≡ initdb_runs s.trace)
          × (wipes_are_safe s'.trace ≡ wipes_are_safe s.trace)
    unfolding bootstrap_as_standby_with_retry
    retry_frame s = ground (
      arith,
      standby_loop_frame standby_fuel (env.now s.trace + bootstrap_standby_tiebreak_timeout) s,
    )

    tiebreak_loop_wipes :
        (fuel deadline : ℕ) (s : Node)
        → wipes_are_safe (tiebreak_loop env cfg fuel deadline s).1.trace ≡ wipes_are_safe s.trace
    unfolding tiebreak_loop
    tiebreak_loop_wipes zero deadline s = ground arith
    tiebreak_loop_wipes (suc fuel) deadline s =
        let t = (fetch_peer_status env cfg s).1 in
        ground (
          arith,
          fetch_frame s,
          primary_frame t,
          retry_frame t,
          tiebreak_loop_wipes fuel deadline (log (slept bootstrap_poll_interval) t),
        )

    primary_onward :
        IsClock env
        → (s : Node) → env.now s.trace ≤ env.now (bootstrap_as_primary env cfg s).1.trace
    unfolding bootstrap_as_primary
    primary_onward c s = grind (arith, c.onward)

    -- The loop initialises a cluster only once the deadline has passed.
    tiebreak_loop_waits :
        IsClock env
        → (fuel deadline : ℕ) (s : Node)
        → let s' = (tiebreak_loop env cfg fuel deadline s).1 in
          (initdb_runs s'.trace ≡ initdb_runs s.trace) ⊎ (deadline < env.now s'.trace)
    unfolding tiebreak_loop
    tiebreak_loop_waits c zero deadline s = ground arith
    tiebreak_loop_waits c (suc fuel) deadline s =
        let t = (fetch_peer_status env cfg s).1 in
        ground (
          arith,
          fetch_frame s,
          primary_onward c t,
          retry_frame t,
          tiebreak_loop_waits c fuel deadline (log (slept bootstrap_poll_interval) t),
        )

    -- The second node of a pair, whose name ends in -1, never initialises a cluster by itself: with
    -- the role auto and a configured peer it only ever clones.
    pub second_node_never_initialises :
        (s : Node) (name : Text)
        → cfg.bootstrap_role ≡ auto
        → has_peer cfg ≡ true
        → env.hostname s.trace ≡ some name
        → has_suffix (lit "-1") name ≡ true
        → initdb_runs (run_bootstrap env cfg s).1.trace ≡ initdb_runs s.trace
    unfolding run_bootstrap
    second_node_never_initialises s name auto_role peer named suffix =
        ground (arith, retry_frame (log (looked_up_hostname (some name)) s))

    -- With the role auto and a configured peer, a node initialises a cluster only after it has
    -- looked for a primary at the peer for more than the 15 seconds of the tiebreak.
    pub initialises_after_tiebreak :
        IsClock env
        → (s : Node) → cfg.bootstrap_role ≡ auto
        → has_peer cfg ≡ true
        → let s' = (run_bootstrap env cfg s).1 in
          (initdb_runs s'.trace ≡ initdb_runs s.trace)
          ⊎ (env.now s.trace + bootstrap_primary_tiebreak_timeout < env.now s'.trace)
    unfolding run_bootstrap
    initialises_after_tiebreak c s auto_role peer =
        let t = log (looked_up_hostname (env.hostname s.trace)) s in
        ground (
          arith,
          c.onward (looked_up_hostname (env.hostname s.trace)) s.trace,
          retry_frame t,
          tiebreak_loop_waits c tiebreak_fuel (env.now t.trace + bootstrap_primary_tiebreak_timeout)
              t,
        )

    -- Whatever its role, a bootstrap empties PGDATA only right after the local port was found closed.
    pub bootstrap_wipes_safe :
        (s : Node)
        → wipes_are_safe s.trace ≡ true
        → wipes_are_safe (run_bootstrap env cfg s).1.trace ≡ true
    unfolding run_bootstrap
    bootstrap_wipes_safe s h =
        let t = log (looked_up_hostname (env.hostname s.trace)) s in
        ground (
          arith,
          run_basebackup_frame s,
          primary_frame s,
          primary_frame t,
          retry_frame t,
          tiebreak_loop_wipes tiebreak_fuel (env.now t.trace + bootstrap_primary_tiebreak_timeout)
              t,
        )
