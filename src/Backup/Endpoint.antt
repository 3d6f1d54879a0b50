-- ===== src/Backup/Endpoint.antt =====
-- The ways to a backup: the scheduler, the API's handler and the command line (startBackupScheduler,
-- runBackupToStdout and requireLocalPrimary of src/backup.go, handleBackup of src/api.go).
use pg_guard.Prelude.{
  ℕ, suc, ◌+◌, ◌≡◌, ◌⊎◌, Bool, true, false, Option, none, some, List, [], ◌∷◌, if◌then◌else◌, arith,
}
use pg_guard.Config.{Config}
use pg_guard.Backup.{
  Backups, World, BackupError, Outcome, backed_up, failed, role_unknown, not_primary,
  in_progress_already, perform_backup,
}

-- The code of the answer.
abbrev pub reply_to : Outcome → ℕ
reply_to (failed not_primary) = 409
reply_to (failed in_progress_already) = 409
reply_to (failed e) = 500
reply_to (backed_up dest) = 200

unfoldable pub handle_backup : World → Config → Backups → ℕ × Backups
handle_backup w cfg b = let (o, b') = perform_backup w cfg b in (reply_to o, b')

-- One tick of the scheduler, and the ticks of a run, each with what it finds.
unfoldable pub scheduler_tick : Config → Bool × World → Backups → Backups
scheduler_tick cfg (running, w) b = if running then (perform_backup w cfg b).1 else b

unfoldable pub scheduler_ticks : Config → List (Bool × World) → Backups → Backups
unfolding scheduler_tick
scheduler_ticks cfg [] b = b
scheduler_ticks cfg (t ∷ ts) b = scheduler_ticks cfg ts (scheduler_tick cfg t b)

unfoldable pub backup_scheduler : Config → List (Bool × World) → Backups → Backups
unfolding scheduler_ticks
backup_scheduler cfg ts b = if cfg.backup_enabled then scheduler_ticks cfg ts b else b

-- What a connection of the command line finds: none is an error.
abbrev pub require_local_primary : Option Bool → Option BackupError
require_local_primary none = some role_unknown
require_local_primary (some true) = some not_primary
require_local_primary (some false) = none

abbrev stdout_unless : Option BackupError → Bool → Bool
stdout_unless none clones = clones
stdout_unless (some e) clones = false

-- Whether an archive was written to the standard output.
abbrev pub run_backup_to_stdout : Option Bool → Bool → Bool
run_backup_to_stdout recovery clones = stdout_unless (require_local_primary recovery) clones

-- The code that answers a request for a backup tells what became of it: 200 exactly if a backup was
-- made and counted; 409 exactly if the node is a standby, or is primary while another backup runs,
-- and then nothing was changed; and otherwise 500, and no backup was counted.
pub backup_reply :
    (w : World) (cfg : Config) (b : Backups)
    → let (code, b') = handle_backup w cfg b in
      ((code ≡ 200)
        × (w.recovery ≡ some false)
        × (b.in_progress ≡ false)
        × (b'.total ≡ suc b.total))
      ⊎ ((code ≡ 409)
          × ((w.recovery ≡ some true) ⊎ ((w.recovery ≡ some false) × (b.in_progress ≡ true)))
          × (b' ≡ b))
      ⊎ ((code ≡ 500)
          × ((w.recovery ≡ none) ⊎ ((w.recovery ≡ some false) × (b.in_progress ≡ false)))
          × (b'.total ≡ b.total))
unfolding handle_backup perform_backup
backup_reply w cfg b = ground arith

abbrev due_at : Option Bool → ℕ
due_at none = 0
due_at (some true) = 0
due_at (some false) = 1

-- The scheduler's ticks that find a primary with no other backup running.
abbrev pub due : List (Bool × World) → ℕ
due [] = 0
due ((running, w) ∷ ts) = (if running then due_at w.recovery else 0) + due ts

tick_counts :
    (cfg : Config) (running : Bool) (w : World) (b : Backups)
    → b.in_progress ≡ false
    → let b' = scheduler_tick cfg (running, w) b in
      (b'.in_progress ≡ false)
      × (b'.total + b'.failures
          ≡ (if running then due_at w.recovery else 0) + (b.total + b.failures))
unfolding scheduler_tick perform_backup
tick_counts cfg running w b h = ground (arith, h)

ticks_count :
    (cfg : Config) (ts : List (Bool × World)) (b : Backups)
    → b.in_progress ≡ false
    → let b' = scheduler_ticks cfg ts b in
      (b'.in_progress ≡ false) × (b'.total + b'.failures ≡ due ts + (b.total + b.failures))
unfolding scheduler_ticks
ticks_count cfg [] b h = ground (arith, h)
ticks_count cfg ((running, w) ∷ ts) b h =
    let (free, counted) = tick_counts cfg running w b h in
    ground (arith, counted, ticks_count cfg ts (scheduler_tick cfg (running, w) b) free)

-- Where backups are enabled and no other backup runs, every tick of the scheduler that finds postgres
-- running as a primary is counted once, as a success or as a failure, and no other tick is counted.
-- The mark of a running backup is never left behind.
pub scheduler_counts :
    (cfg : Config) (ts : List (Bool × World)) (b : Backups)
    → cfg.backup_enabled ≡ true
    → b.in_progress ≡ false
    → let b' = backup_scheduler cfg ts b in
      (b'.in_progress ≡ false) × (b'.total + b'.failures ≡ due ts + (b.total + b.failures))
unfolding backup_scheduler
scheduler_counts cfg ts b on h = ground (arith, on, ticks_count cfg ts b h)
