-- ===== src/Database/Ensure.antt =====
-- What setting a primary up for its peer achieves (src/bootstrap.go).
use Prim.Native.Nat.{◌*◌}
use pg_guard.Prelude.{
  ℕ, zero, suc, ◌+◌, ◌≤◌, ◌≡◌, ◌⊎◌, true, false, none, some, Text, ◌∷◌, arith, ◌≢◌, Option-cases,
  inl, inr,
}
use pg_guard.Config.{Config, bootstrap_retry_interval, ensure_role_and_database_timeout}
use pg_guard.Hba.{hba_upsert_line}
use pg_guard.Hba.Upsert.{IsRule, upsert_twice}
use pg_guard.Node.{Node, Env, ok, stuck, asked_recovery, connected, reloaded_config, slept}
use pg_guard.Node.Monad.{log}
use pg_guard.Node.History.{IsClock, newest, ends_set_up}
use pg_guard.Database.{
  update_hba, ensure_replication_hba, ensure_role_and_database, ensure_loop,
  ensure_role_and_database_blocking,
}

module _ (env : Env) where
  -- An update of pg_hba.conf that reports success leaves a file that holds the desired rule, so
  -- that the same update would change nothing, and if it changed the file, its last act was to have
  -- postgres reload it.
  pub update_hba_ok :
      (prefix desired : Text) (s : Node)
      → IsRule prefix desired
      → (update_hba env prefix desired s).0 ≡ ok
      → let s' = (update_hba env prefix desired s).1 in
        (hba_upsert_line prefix desired s'.hba ≡ none)
        × ((s'.hba ≡ s.hba) ⊎ (newest s'.trace ≡ some (reloaded_config true)))
  unfolding update_hba
  update_hba_ok prefix desired s r h = elim (Option-cases (hba_upsert_line prefix desired s.hba)) [
    | inl same ↦ ground arith
    | inr (text, changed) ↦ ground (arith, upsert_twice prefix desired r s.hba {new = text} changed)
  ]

  -- On a standby the set-up changes nothing: it only connects and asks for the role.
  pub ensure_on_standby :
      (cfg : Config) (s : Node)
      → env.recovery (connected (env.connect s.trace) ∷ s.trace) ≡ some true
      → let s' = (ensure_role_and_database env cfg s).1 in
        (s'.hba ≡ s.hba)
        × ((s'.trace ≡ connected false ∷ s.trace)
            ⊎ (s'.trace ≡ asked_recovery (some true) ∷ connected true ∷ s.trace))
  unfolding ensure_role_and_database
  ensure_on_standby cfg s h = ground arith

  module _ (cfg : Config) where
    ensure_ok :
        (s : Node)
        → (ensure_role_and_database env cfg s).0 ≡ ok
        → ends_set_up (newest (ensure_role_and_database env cfg s).1.trace) ≡ true
    unfolding ensure_role_and_database
    ensure_ok s h = ground arith

    ensure_not_stuck : (s : Node) → (ensure_role_and_database env cfg s).0 ≢ stuck
    unfolding ensure_role_and_database
    ensure_not_stuck s = ground arith

    ensure_onward :
        IsClock env
        → (s : Node) → env.now s.trace ≤ env.now (ensure_role_and_database env cfg s).1.trace
    unfolding ensure_role_and_database ensure_replication_hba update_hba
    ensure_onward c s = grind (arith, c.onward)

    -- The loop ends.
    ensure_loop-not_stuck :
        IsClock env
        → (fuel deadline : ℕ) (s : Node)
        → deadline ≤ env.now s.trace + fuel * bootstrap_retry_interval
        → (ensure_loop env cfg (suc fuel) deadline s).0 ≢ stuck
    unfolding ensure_loop
    ensure_loop-not_stuck c zero deadline s h = ground arith
    ensure_loop-not_stuck c (suc fuel) deadline s h =
        let t = (ensure_role_and_database env cfg s).1 in
        ground (
          arith,
          ensure_onward c s,
          c.sleeps bootstrap_retry_interval t.trace,
          ensure_loop-not_stuck c fuel deadline (log (slept bootstrap_retry_interval) t),
          ensure_not_stuck s,
        )

    -- If the clock runs, the blocking set-up ends.
    pub blocking_ends :
        IsClock env → (s : Node) → (ensure_role_and_database_blocking env cfg s).0 ≢ stuck
    unfolding ensure_role_and_database_blocking
    blocking_ends c s =
        ground
          (arith, ensure_loop-not_stuck c 30 (env.now s.trace + ensure_role_and_database_timeout) s)

    -- The loop ends by its own tests: the last attempt succeeded, or the deadline has passed.
    ensure_loop-ends :
        IsClock env
        → (fuel deadline : ℕ) (s : Node)
        → deadline ≤ env.now s.trace + fuel * bootstrap_retry_interval
        → let t = (ensure_loop env cfg (suc fuel) deadline s).1.trace in
          (deadline ≤ env.now t) ⊎ (ends_set_up (newest t) ≡ true)
    unfolding ensure_loop
    ensure_loop-ends c zero deadline s h = ground arith
    ensure_loop-ends c (suc fuel) deadline s h =
        let t = (ensure_role_and_database env cfg s).1 in
        ground (
          arith,
          ensure_ok s,
          ensure_onward c s,
          c.sleeps bootstrap_retry_interval t.trace,
          ensure_loop-ends c fuel deadline (log (slept bootstrap_retry_interval) t),
          ensure_not_stuck s,
        )

    -- If the clock runs, the blocking set-up of a running node ends because an attempt succeeded or
    -- because its time is up.
    pub ensure_blocking_ends :
        IsClock env
        → (s : Node) → s.postgres_running ≡ true
        → let s' = (ensure_role_and_database_blocking env cfg s).1 in
          (env.now s.trace + ensure_role_and_database_timeout ≤ env.now s'.trace)
          ⊎ (ends_set_up (newest s'.trace) ≡ true)
    unfolding ensure_role_and_database_blocking
    ensure_blocking_ends c s running =
        ground (arith, ensure_loop-ends c 30 (env.now s.trace + ensure_role_and_database_timeout) s)
