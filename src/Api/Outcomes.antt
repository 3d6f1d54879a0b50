-- ===== src/Api/Outcomes.antt =====
-- What the handlers of the HTTP API answer and leave behind (src/api.go).
use pg_guard.Prelude.{
  suc, ◌-◌, ◌≡◌, ◌⊎◌, inl, inr, refl, Bool, true, false, Option, none, some, is_some, arith,
}
use pg_guard.Config.{Config, ShutdownMode, switchover_mode, reboot_mode}
use pg_guard.Node.{Node, Env, ok, asked_recovery, called_promote, sigterm}
use pg_guard.Node.Monad.{log}
use pg_guard.Node.History.{IsClock, promote_calls}
use pg_guard.Peer.{fetch_peer_status}
use pg_guard.Handover.{is_primary}
use pg_guard.Startup.Frame.{start_postgres_cases}
use pg_guard.Supervisor.{
  Kind, shutdown, switchover, maintenance, reboot, start, handle_handover_request,
  exit_code_switchover_restart,
}
use pg_guard.Supervisor.Stopping.{handover-Stops, reboot-Stops}
use pg_guard.Supervisor.Dispatch.{Stopping}
use pg_guard.Failover.Frame.{blocking-Steady}
use pg_guard.Failover.Marks.{blocking-Keeps}
use pg_guard.Api.{
  handle_promote, handle_shutdown, handle_switchover, handle_maintenance, handle_start,
  exit_code_for, kind_of, remember_role,
}
use pg_guard.Api.Ends.{request_ends}

module _ (env : Env) (cfg : Config) where
  fetch_promote_calls :
      (s : Node)
      → (promote_calls (fetch_peer_status env cfg s).1.trace ≡ promote_calls s.trace)
        × ((fetch_peer_status env cfg s).1.promotions ≡ s.promotions)
  unfolding fetch_peer_status
  fetch_promote_calls s = ground arith

  -- The promotion guard. Without force a promotion is refused with 409, and nothing is promoted, if
  -- the peer answers that it is primary. In all other cases postgres is asked once to promote
  -- itself: the answer is 200 and the promotion is counted, or 500 and it is not.
  pub promote_outcome :
      (force : Bool) (s : Node)
      → let (reply, s') = handle_promote env cfg force s in
        ((reply ≡ some 409)
          × (force ≡ false)
          × (is_primary (fetch_peer_status env cfg s).0 ≡ true)
          × (promote_calls s'.trace ≡ promote_calls s.trace)
          × (s'.promotions ≡ s.promotions))
        ⊎ (((force ≡ true) ⊎ (is_primary (fetch_peer_status env cfg s).0 ≡ false))
            × (promote_calls s'.trace ≡ suc (promote_calls s.trace))
            × (((reply ≡ some 200) × (s'.promotions ≡ suc s.promotions))
                ⊎ ((reply ≡ some 500) × (s'.promotions ≡ s.promotions))))
  unfolding handle_promote
  promote_outcome true s =
      let d = log (called_promote true) s in
      ground (
        arith,
        blocking-Steady env cfg (record d {
          last_promotion_duration = env.now d.trace - env.now s.trace;
          promotions = suc d.promotions;
        }),
      )
  promote_outcome false s =
      let c = (fetch_peer_status env cfg s).1 in
      let d = log (called_promote true) c in
      ground (
        arith,
        fetch_promote_calls s,
        blocking-Steady env cfg (record d {
          last_promotion_duration = env.now d.trace - env.now c.trace;
          promotions = suc d.promotions;
        }),
      )

  -- What a request to stop has left behind when the main loop answers it.
  request-Stops :
      (kind : Kind) (s : Node)
      → Stopping kind
      → let (r, s') = handle_handover_request env cfg kind s in
        (s'.exit_requested ≡ s.exit_requested)
        × ((r ≡ ok) → (s'.current_child ≡ none) × (s'.postgres_running ≡ false))
  unfolding handle_handover_request
  request-Stops shutdown s k = ground (arith, handover-Stops env cfg sigterm cfg.shutdown_policy s)
  request-Stops switchover s k =
      ground (arith, handover-Stops env cfg sigterm cfg.shutdown_policy s)
  request-Stops maintenance s k =
      ground (arith, handover-Stops env cfg sigterm cfg.shutdown_policy s)
  request-Stops reboot s k = ground (arith, reboot-Stops env cfg sigterm s)
  request-Stops kind s k = absurd (ground arith)

  -- Nothing is watched or marked as running.
  abbrev pub Down : Node → Type 0
  Down s = (s.current_child ≡ none) × (s.postgres_running ≡ false)

  Stopping-kind_of : (mode : ShutdownMode) → Stopping (kind_of mode)
  Stopping-kind_of switchover_mode = inl refl
  Stopping-kind_of reboot_mode = inr (inr (inr refl))

  -- What a request to start has left behind when the main loop answers it.
  request-Starts :
      (s : Node)
      → let (r, s') = handle_handover_request env cfg start s in
        ((r ≡ ok) → (is_some s'.current_child ≡ true) × (s'.postgres_running ≡ true))
        × ((r ≡ ok) ⊎ (s'.current_child ≡ s.current_child))
  unfolding handle_handover_request
  request-Starts s = ground (arith, start_postgres_cases env cfg s)

  remembered :
      (role : Option Bool) (s : Node)
      → ((remember_role env cfg role s).1.exit_requested ≡ s.exit_requested)
        × ((remember_role env cfg role s).1.shutdown_in_progress ≡ s.shutdown_in_progress)
  remembered role s = ground arith

  module _ (clock : IsClock env) where
    -- If the clock runs, a shutdown request ends with the shutdown mark cleared, and in one of two
    -- ways: with 200, postgres down, and the exit of the process requested with the code of the
    -- shutdown mode; or with 409 and no exit requested by it.
    pub shutdown_outcome :
        (s : Node)
        → let (reply, s') = handle_shutdown env cfg s in
          (s'.shutdown_in_progress ≡ false)
          × (((reply ≡ some 200)
                × Down s'
                × (s'.exit_requested ≡ some (exit_code_for cfg.shutdown_mode)))
              ⊎ ((reply ≡ some 409) × (s'.exit_requested ≡ s.exit_requested)))
    unfolding handle_shutdown
    shutdown_outcome s =
        let t = record s { shutdown_in_progress = true } in
        ground (
          arith,
          request_ends env cfg clock (kind_of cfg.shutdown_mode) t,
          request-Stops (kind_of cfg.shutdown_mode) t (Stopping-kind_of cfg.shutdown_mode),
        )

    -- If the clock runs, a switchover request is answered by 409 on a node whose postgres is not
    -- running, by 503 if the role cannot be determined, and by 400 on a standby, each time without
    -- requesting the exit of the process; on a primary it ends with 200, postgres down, and the exit
    -- requested with the code that asks for a restart, or with 409 and no exit requested.
    pub switchover_outcome :
        (s : Node)
        → let (reply, s') = handle_switchover env cfg s in
          (((s.postgres_running ≡ true) × (env.recovery s.trace ≡ some false))
            × (reply ≡ some 200)
            × Down s'
            × (s'.exit_requested ≡ some exit_code_switchover_restart))
          ⊎ ((s'.exit_requested ≡ s.exit_requested)
              × (((s.postgres_running ≡ false) × (reply ≡ some 409))
                  ⊎ ((s.postgres_running ≡ true)
                      × (env.recovery s.trace ≡ none)
                      × (reply ≡ some 503))
                  ⊎ ((s.postgres_running ≡ true)
                      × (env.recovery s.trace ≡ some true)
                      × (reply ≡ some 400))
                  ⊎ ((s.postgres_running ≡ true)
                      × (env.recovery s.trace ≡ some false)
                      × (reply ≡ some 409))))
    unfolding handle_switchover
    switchover_outcome s =
        let t = record (log (asked_recovery (some false)) s) { switchover_in_progress = true } in
        ground (
          arith,
          request_ends env cfg clock switchover t,
          request-Stops switchover t (inr (inl refl)),
        )

    -- If the clock runs, a maintenance request never asks for the exit of the process, and ends with
    -- 200, postgres down and the maintenance mark set, or with 409.
    pub maintenance_outcome :
        (s : Node)
        → let (reply, s') = handle_maintenance env cfg s in
          (s'.shutdown_in_progress ≡ false)
          × (s'.exit_requested ≡ s.exit_requested)
          × (((reply ≡ some 200) × Down s' × (s'.maintenance_active ≡ true)) ⊎ (reply ≡ some 409))
    unfolding handle_maintenance
    maintenance_outcome s =
        let a =
          log (asked_recovery (env.recovery s.trace)) (record s { shutdown_in_progress = true }) in
        let u = (remember_role env cfg (env.recovery s.trace) a).1 in
        ground (
          arith,
          remembered (env.recovery s.trace) a,
          request_ends env cfg clock maintenance u,
          request-Stops maintenance u (inr (inr (inl refl))),
        )

  -- A request to start ends with 200, a watched child and the maintenance mark cleared, or with 409;
  -- in the second case the child that is watched, if any, is the one of before.
  pub start_outcome :
      IsClock env
      → (s : Node)
      → let (reply, s') = handle_start env cfg s in
        ((reply ≡ some 200)
          × (is_some s'.current_child ≡ true)
          × (s'.postgres_running ≡ true)
          × (s'.maintenance_active ≡ false))
        ⊎ ((reply ≡ some 409) × (s'.current_child ≡ s.current_child))
  unfolding handle_start
  start_outcome clock s =
      let t = (handle_handover_request env cfg start s).1 in
      let u = record t { maintenance_active = false } in
      ground (
        arith,
        request_ends env cfg clock start s,
        request-Starts s,
        blocking-Steady env cfg u,
        blocking-Keeps env cfg u,
      )
