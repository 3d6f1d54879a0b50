-- ===== src/Process/Saving.antt =====
-- The process with its state file (runInteractive of src/main.go, src/statepersist.go): the loop
-- writes the file when it counts a crash and a restart, and a backup when it is counted.
pub mod File
use pg_guard.Prelude.{
  ℕ, true, false, Option, none, some, List, [], ◌∷◌, Text, ◌≡◌, inl, inr, refl, ap, sym, ◌∙◌,
  is_empty, arith, Bool, Bool-cases, if◌then◌else◌,
}
use pg_guard.Config.{Config}
use pg_guard.Node.{Node, Env, asked_recovery}
use pg_guard.Node.Monad.{log}
use pg_guard.Supervisor.{handle_handover_request, maintenance, switchover, rejoin, start}
use pg_guard.Supervisor.Counters.{
  SameCounters, at_save, or_unchanged, request-SameCounters, main_step-SameCounters,
}
use pg_guard.Failover.Marks.{blocking-Keeps, tick-Keeps}
use pg_guard.Api.{
  Request, promote, shut_down, switch_over, rejoin_peer, maintain, start_up, reboot_notice, serve,
  handle_shutdown, handle_switchover, handle_rejoin, handle_maintenance, handle_start,
  handle_reboot_notice, kind_of,
}
use pg_guard.Api.Inv.{promote-Keeps, at_maintenance, at_maintenance-Keeps}
use pg_guard.Process.{Step, looped, served, ticked, Process, take_step, advance}
use pg_guard.Backup.{
  Backups, World, Outcome, backed_up, failed, role_unknown, not_primary, in_progress_already,
  perform_backup,
}
use pg_guard.StateFile.{
  Codec, Answers, Disk, Memory, PersistedState, whole, snapshot, persist_state,
  save_persisted_state,
}
use pg_guard.StateFile.Atomic.{save_atomic}
use pg_guard.StateFile.Restart.{IsCodec}

-- The process, its other counters, and the files.
pub record System : Type 0 where
  pub process : Process
  pub backups : Backups
  pub starts : ℕ
  pub disk : Disk

abbrev pub memory_with : System → Node → Memory
memory_with x s = record { node = s; backups = x.backups; starts = x.starts }

abbrev pub backed_with : System → Backups → Memory
backed_with x b = record { node = x.process.node; backups = b; starts = x.starts }

-- A step of the process, or an attempt of a backup beside it.
pub data Move : Type 0 where
  stepped : Step → Move
  attempted : World → Move

abbrev pub is_counted : Outcome → Bool
is_counted (backed_up dest) = true
is_counted (failed role_unknown) = false
is_counted (failed not_primary) = false
is_counted (failed in_progress_already) = false
is_counted (failed e) = true

module _ (env : Env) (cfg : Config) where
  -- The node when a step writes the state file, if it does.
  abbrev pub saves : Step → Node → Option Node
  saves (looped input) s = at_save env cfg input s
  saves step s = none

  module _ (codec : Codec) (answers : Answers) where
    abbrev pub disk_after : System → Option Node → Disk
    disk_after x none = x.disk
    disk_after x (some s) = (persist_state codec answers cfg (memory_with x s) x.disk).final

    -- A backup writes the state file once it is counted, as a success or as a failure.
    abbrev pub disk_backed : System → Outcome × Backups → Disk
    disk_backed x (o, b) =
        if is_counted o
        then (persist_state codec answers cfg (backed_with x b) x.disk).final
        else x.disk

    unfoldable pub advance_saving : Move → System → System
    advance_saving (stepped step) x = record x {
      process = advance env cfg step x.process;
      disk = disk_after x (saves step x.process.node);
    }
    advance_saving (attempted w) x = record x {
      backups = (perform_backup w cfg x.backups).1;
      disk = disk_backed x (perform_backup w cfg x.backups);
    }

    unfoldable pub run_saving : List Move → System → System
    unfolding advance_saving
    run_saving [] x = x
    run_saving (move ∷ moves) x = run_saving moves (advance_saving move x)
