-- ===== src/Rewind.antt =====
-- Making the stopped local cluster a standby of the peer (src/rewind.go).
use pg_guard.Prelude.{ℕ, suc, ◌-◌, Bool, true, false, if◌then◌else◌}
use pg_guard.Node.{
  Env, Result, ok, err, stuck, ran_rewind, dialled_postgres, made_pg_data, cleared_pg_data,
  ran_basebackup, wrote_standby_config, postgres_still_listening, pg_data_failed, clear_failed,
  basebackup_failed, standby_config_failed,
}
use pg_guard.Node.Monad.{M, ◌>>=◌, ◌>>◌, pure, modify, ask, time_now}

module _ (env : Env) where
  -- A clone brings the peer's pg_hba.conf along.
  abbrev take_cloned_hba : M (Unit {0})
  take_cloned_hba = modify (λ s. record s { hba = env.cloned_hba s.trace })

  abbrev if_cloned : Bool → M Result
  if_cloned false = pure (err basebackup_failed)
  if_cloned true = do take_cloned_hba; pure ok

  abbrev if_cleared : Bool → M Result
  if_cleared false = pure (err clear_failed)
  if_cleared true = do cloned ← ask env.basebackup ran_basebackup; if_cloned cloned

  -- Reading the directory and removing what is in it.
  abbrev if_made : Bool → M Result
  if_made false = pure (err pg_data_failed)
  if_made true = do cleared ← ask env.clear_pg_data cleared_pg_data; if_cleared cleared

  abbrev if_listening : Bool → M Result
  if_listening true = pure (err postgres_still_listening)
  if_listening false = do made ← ask env.make_pg_data made_pg_data; if_made made

  unfoldable pub run_basebackup : M Result
  run_basebackup = do listening ← ask env.port_open dialled_postgres; if_listening listening

  unfoldable pub configure_as_standby : M Result
  configure_as_standby = do
    written ← ask env.write_standby_config wrote_standby_config
    pure (if written then ok else err standby_config_failed)

  abbrev record_rejoin : ℕ → Result → M Result
  record_rejoin start ok = do
    t ← time_now env
    modify (λ s. record s { last_rejoin_duration = t - start; rejoins = suc s.rejoins })
    pure ok
  record_rejoin start (err e) = pure (err e)
  record_rejoin start stuck = pure stuck

  abbrev if_rewound : Bool → M Result
  if_rewound true = do take_cloned_hba; configure_as_standby
  if_rewound false = run_basebackup

  unfoldable pub rejoin_as_standby : M Result
  unfolding configure_as_standby
  rejoin_as_standby = do
    start ← time_now env
    rewound ← ask env.rewind ran_rewind
    done ← if_rewound rewound
    record_rejoin start done
