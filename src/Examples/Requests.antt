-- ===== src/Examples/Requests.antt =====
-- The statements on the API and on its access checks at a concrete node (src/api.go,
-- src/auth.go).
use pg_guard.Prelude.{suc, ◌≡◌, ◌⊎◌, true, false, none, some, [], ◌∷◌, lit}
use pg_guard.Config.{Config, both}
use pg_guard.Node.{Node}
use pg_guard.Node.History.{promote_calls}
use pg_guard.Peer.{fetch_peer_status}
use pg_guard.Handover.{is_primary}
use pg_guard.Supervisor.{exit_code_switchover_restart}
use pg_guard.Auth.{Caller, NameService}
use pg_guard.Api.{handle_promote, handle_shutdown, handle_switchover, exit_code_for}
use pg_guard.Api.Outcomes.{Down, promote_outcome, shutdown_outcome, switchover_outcome}
use pg_guard.Examples.World.{calm, calm-IsClock, settings, running}

abbrev book : NameService
book = record {
  lookup_host = λ h. some (lit "10.0.0.9" ∷ (lit "10.0.0.2" ∷ []));
  lookup_addr = λ a. some (lit "pg-1.db.local." ∷ []);
}

abbrev caller : Caller
caller = record {
  remote_addr = lit "10.0.0.2:5000";
  split_host = some (lit "10.0.0.2");
  authorization = lit "Bearer token";
}

abbrev strict : Config
strict = record settings { peer_verify = both }

promote_outcome_example :
    let (reply, s') = handle_promote calm settings false running in
    ((reply ≡ some 409)
      × (false ≡ false)
      × (is_primary (fetch_peer_status calm settings running).0 ≡ true)
      × (promote_calls s'.trace ≡ promote_calls running.trace)
      × (s'.promotions ≡ running.promotions))
    ⊎ (((false ≡ true) ⊎ (is_primary (fetch_peer_status calm settings running).0 ≡ false))
        × (promote_calls s'.trace ≡ suc (promote_calls running.trace))
        × (((reply ≡ some 200) × (s'.promotions ≡ suc running.promotions))
            ⊎ ((reply ≡ some 500) × (s'.promotions ≡ running.promotions))))
promote_outcome_example = promote_outcome calm settings false running

shutdown_outcome_example :
    let (reply, s') = handle_shutdown calm settings running in
    (s'.shutdown_in_progress ≡ false)
    × (((reply ≡ some 200)
          × Down calm settings s'
          × (s'.exit_requested ≡ some (exit_code_for settings.shutdown_mode)))
        ⊎ ((reply ≡ some 409) × (s'.exit_requested ≡ running.exit_requested)))
shutdown_outcome_example = shutdown_outcome calm settings calm-IsClock running

switchover_outcome_example :
    let (reply, s') = handle_switchover calm settings running in
    (((running.postgres_running ≡ true) × (calm.recovery running.trace ≡ some false))
      × (reply ≡ some 200)
      × Down calm settings s'
      × (s'.exit_requested ≡ some exit_code_switchover_restart))
    ⊎ ((s'.exit_requested ≡ running.exit_requested)
        × (((running.postgres_running ≡ false) × (reply ≡ some 409))
            ⊎ ((running.postgres_running ≡ true)
                × (calm.recovery running.trace ≡ none)
                × (reply ≡ some 503))
            ⊎ ((running.postgres_running ≡ true)
                × (calm.recovery running.trace ≡ some true)
                × (reply ≡ some 400))
            ⊎ ((running.postgres_running ≡ true)
                × (calm.recovery running.trace ≡ some false)
                × (reply ≡ some 409))))
switchover_outcome_example = switchover_outcome calm settings calm-IsClock running
