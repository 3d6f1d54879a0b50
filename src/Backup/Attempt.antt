-- ===== src/Backup/Attempt.antt =====
-- The outcomes of a backup attempt (src/backup.go).
use pg_guard.Prelude.{suc, ◌≡◌, ◌⊎◌, true, false, none, some, Text, arith}
use pg_guard.Config.{Config}
use pg_guard.Backup.{
  Backups, World, BackupError, backed_up, failed, role_unknown, not_primary, in_progress_already,
  perform_backup,
}

module _ (w : World) (cfg : Config) where
  -- A backup attempt leaves the mark of a running backup as it found it, and it ends in one of three
  -- ways. It is turned away, with everything unchanged: the role is unknown, the node is a standby,
  -- or a backup is running. Or it is made, on a primary while no other backup runs. Then it fails,
  -- and only the failures are counted, or it succeeds, and the success is counted and its time
  -- recorded.
  pub backup_outcome :
      (b : Backups)
      → let (o, b') = perform_backup w cfg b in
        (b'.in_progress ≡ b.in_progress)
        × ((((o ≡ failed role_unknown) × (w.recovery ≡ none)
                ⊎ ((o ≡ failed not_primary) × (w.recovery ≡ some true))
                ⊎ ((o ≡ failed in_progress_already) × (b.in_progress ≡ true)))
              × (b' ≡ b))
            ⊎ (((e : BackupError) × (o ≡ failed e))
                × (w.recovery ≡ some false)
                × (b.in_progress ≡ false)
                × (b'.failures ≡ suc b.failures)
                × (b'.total ≡ b.total)
                × (b'.last_backup ≡ b.last_backup)
                × (b'.entries ≡ b.entries))
            ⊎ (((dest : Text) × (o ≡ backed_up dest))
                × (w.recovery ≡ some false)
                × (b.in_progress ≡ false)
                × (b'.failures ≡ b.failures)
                × (b'.total ≡ suc b.total)
                × (b'.last_backup ≡ w.ended)))
  unfolding perform_backup
  backup_outcome b = ground arith
