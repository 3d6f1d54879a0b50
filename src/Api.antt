-- ===== src/Api.antt =====
-- The handlers of the HTTP API (src/api.go). A handler that needs the main loop hands it a request
-- and waits for the answer, so a handler is what comes before the request, the main loop's
-- handling of it, and what comes after; one handler runs at a time. The answer is the HTTP code;
-- `none` stands for no answer, where a loop of the model ran out of fuel.
pub mod Outcomes
pub mod Ends
pub mod Inv
use pg_guard.Prelude.{ℕ, suc, ◌-◌, Bool, true, false, not, Option, none, some, shift, if◌then◌else◌}
use pg_guard.Config.{Config, ShutdownMode, switchover_mode, reboot_mode}
use pg_guard.Node.{Node, Env, Role, Result, ok, err, stuck, asked_recovery, called_promote}
use pg_guard.Node.Monad.{M, ◌>>=◌, ◌>>◌, pure, get, modify, ask, time_now}
use pg_guard.Peer.{fetch_peer_status}
use pg_guard.Handover.{is_primary}
use pg_guard.Database.{ensure_role_and_database_blocking}
use pg_guard.Supervisor.{
  Kind, shutdown, switchover, maintenance, reboot, rejoin, start, handle_handover_request,
  exit_code_switchover_restart,
}

abbrev pub Reply : Type 0
Reply = Option ℕ

-- The endpoints behind requireHAAuth; the promotion comes with its `force` parameter.
pub data Request : Type 0 where
  promote : Bool → Request
  shut_down switch_over rejoin_peer maintain start_up reboot_notice : Request

abbrev pub kind_of : ShutdownMode → Kind
kind_of reboot_mode = reboot
kind_of switchover_mode = shutdown

abbrev pub exit_code_for : ShutdownMode → ℕ
exit_code_for reboot_mode = exit_code_switchover_restart
exit_code_for switchover_mode = 0

abbrev request_exit : ℕ → M (Unit {0})
request_exit code = modify (λ s. record s { exit_requested = some code })

-- The code 409 if the main loop refused, and what follows its success.
abbrev pub conflict_unless_ok : M Reply → Result → M Reply
conflict_unless_ok after ok = after
conflict_unless_ok after (err e) = pure (some 409)
conflict_unless_ok after stuck = pure none

module _ (env : Env) (cfg : Config) where
  abbrev promoted_if : ℕ → Bool → M Reply
  promoted_if begun false = pure (some 500)
  promoted_if begun true = do
    t ← time_now env
    modify (λ s. record s { last_promotion_duration = t - begun; promotions = suc s.promotions })
    set_up ← ensure_role_and_database_blocking env cfg
    pure (some 200)

  abbrev promote_here : M Reply
  promote_here = do
    begun ← time_now env
    promoted ← ask env.promote called_promote
    promoted_if begun promoted

  abbrev unless_peer_primary : Option Role → M Reply
  unless_peer_primary status = if is_primary status then pure (some 409) else promote_here

  unfoldable pub handle_promote : Bool → M Reply
  handle_promote true = promote_here
  handle_promote false = do status ← fetch_peer_status env cfg; unless_peer_primary status

  abbrev finish_shutdown : M Reply
  finish_shutdown = do request_exit (exit_code_for cfg.shutdown_mode); pure (some 200)

  unfoldable pub handle_shutdown : M Reply
  handle_shutdown = do
    modify (λ s. record s { shutdown_in_progress = true })
    done ← handle_handover_request env cfg (kind_of cfg.shutdown_mode)
    reply ← conflict_unless_ok finish_shutdown done
    modify (λ s. record s { shutdown_in_progress = false })
    pure reply

  unfoldable pub handle_reboot_notice : M Reply
  handle_reboot_notice = do
    t ← time_now env
    modify (λ s. record s { reboot_suppress_until = shift t cfg.reboot_grace_period })
    pure (some 200)

  abbrev pub remember_role : Option Bool → M (Unit {0})
  remember_role none = pure tt
  remember_role (some in_recovery) =
      modify (λ s. record s { maintenance_was_primary = not in_recovery })

  abbrev finish_maintenance : M Reply
  finish_maintenance = do modify (λ s. record s { maintenance_active = true }); pure (some 200)

  unfoldable pub handle_maintenance : M Reply
  handle_maintenance = do
    modify (λ s. record s { shutdown_in_progress = true })
    role ← ask env.recovery asked_recovery
    remember_role role
    done ← handle_handover_request env cfg maintenance
    reply ← conflict_unless_ok finish_maintenance done
    modify (λ s. record s { shutdown_in_progress = false })
    pure reply

  abbrev finish_switchover : M Reply
  finish_switchover = do request_exit exit_code_switchover_restart; pure (some 200)

  abbrev switch_as : Option Bool → M Reply
  switch_as none = pure (some 503)
  switch_as (some true) = pure (some 400)
  switch_as (some false) = do
    modify (λ s. record s { switchover_in_progress = true })
    done ← handle_handover_request env cfg switchover
    reply ← conflict_unless_ok finish_switchover done
    modify (λ s. record s { switchover_in_progress = false })
    pure reply

  abbrev switch_if_running : Bool → M Reply
  switch_if_running false = pure (some 409)
  switch_if_running true = do role ← ask env.recovery asked_recovery; switch_as role

  unfoldable pub handle_switchover : M Reply
  handle_switchover = do s ← get; switch_if_running s.postgres_running

  abbrev leave_maintenance : M (Unit {0})
  leave_maintenance = modify (λ s. record s { maintenance_active = false })

  abbrev finish_rejoin : M Reply
  finish_rejoin = do leave_maintenance; pure (some 200)

  unfoldable pub handle_rejoin : M Reply
  handle_rejoin = do
    done ← handle_handover_request env cfg rejoin
    conflict_unless_ok finish_rejoin done

  -- The set-up runs in the background in the source: here it follows the answer.
  abbrev finish_start : M Reply
  finish_start = do
    leave_maintenance
    set_up ← ensure_role_and_database_blocking env cfg
    pure (some 200)

  unfoldable pub handle_start : M Reply
  handle_start = do
    done ← handle_handover_request env cfg start
    conflict_unless_ok finish_start done

  unfoldable pub serve : Request → M Reply
  serve (promote force) = handle_promote force
  serve shut_down = handle_shutdown
  serve switch_over = handle_switchover
  serve rejoin_peer = handle_rejoin
  serve maintain = handle_maintenance
  serve start_up = handle_start
  serve reboot_notice = handle_reboot_notice
