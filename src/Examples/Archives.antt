-- ===== src/Examples/Archives.antt =====
-- The statements on backups at a concrete directory (src/backup.go).
use pg_guard.Prelude.{
  suc, ◌+◌, refl, Bool, ◌≡◌, ◌⊎◌, true, false, none, some, List, [], ◌∷◌, ◌++◌, Text, lit, leb,
  length, All, if◌then◌else◌,
}
use pg_guard.Backup.{
  Entry, Backups, World, BackupError, backed_up, failed, role_unknown, not_primary,
  in_progress_already, perform_backup, prune_old_backups, surplus, names_of, sort_texts,
}
use pg_guard.Backup.Attempt.{backup_outcome}
use pg_guard.Backup.Sorting.{Below}
use pg_guard.Backup.Retention.{foreign, surplus_is_oldest, prune_spares_foreign}
use pg_guard.Config.{Config}
use pg_guard.Backup.Endpoint.{backup_scheduler, due, scheduler_counts}
use pg_guard.Examples.World.{settings}

abbrev directory : Text → Entry
directory n = record { name = n; is_dir = true }

abbrev shelf : List Entry
shelf =
    directory (lit "20260103T000000Z")
    ∷ (directory (lit "20260101T000000Z")
        ∷ (directory (lit "notes") ∷ (directory (lit "20260102T000000Z") ∷ [])))

abbrev pub good_day : World
good_day = record {
  recovery = some false;
  makes_dir = true;
  clones = true;
  pipes = true;
  begun = 100;
  ended = 160;
  stamp = lit "20260104T000000Z";
  lists = true;
  removes = λ n. true;
}

abbrev pub idle : Backups
idle = record {
  in_progress = false;
  total = 3;
  failures = 0;
  last_backup = 50;
  last_duration = 10;
  last_attempt = some true;
  entries = shelf;
}

backup_outcome_example :
    let (o, b') = perform_backup good_day settings idle in
    (b'.in_progress ≡ idle.in_progress)
    × ((((o ≡ failed role_unknown) × (good_day.recovery ≡ none)
            ⊎ ((o ≡ failed not_primary) × (good_day.recovery ≡ some true))
            ⊎ ((o ≡ failed in_progress_already) × (idle.in_progress ≡ true)))
          × (b' ≡ idle))
        ⊎ (((e : BackupError) × (o ≡ failed e))
            × (good_day.recovery ≡ some false)
            × (idle.in_progress ≡ false)
            × (b'.failures ≡ suc idle.failures)
            × (b'.total ≡ idle.total)
            × (b'.last_backup ≡ idle.last_backup)
            × (b'.entries ≡ idle.entries))
        ⊎ (((dest : Text) × (o ≡ backed_up dest))
            × (good_day.recovery ≡ some false)
            × (idle.in_progress ≡ false)
            × (b'.failures ≡ idle.failures)
            × (b'.total ≡ suc idle.total)
            × (b'.last_backup ≡ good_day.ended)))
backup_outcome_example = backup_outcome good_day settings idle

surplus_is_oldest_example :
    (kept : List Text) × (sort_texts (names_of shelf) ≡ surplus 2 (names_of shelf) ++ kept)
    × (length kept ≡ (if leb (length (names_of shelf)) 2 then length (names_of shelf) else 2))
    × All (λ x. Below x kept) (surplus 2 (names_of shelf))
surplus_is_oldest_example = surplus_is_oldest 2 (names_of shelf)

prune_spares_foreign_example : foreign (prune_old_backups good_day settings shelf).1 ≡ foreign shelf
prune_spares_foreign_example = prune_spares_foreign good_day settings shelf

abbrev nightly : Config
nightly = record settings { backup_enabled = true }

abbrev nights : List (Bool × World)
nights = (true, good_day) ∷ ((false, good_day) ∷ ((true, good_day) ∷ []))

scheduler_counts_example :
    let b' = backup_scheduler nightly nights idle in
    (b'.in_progress ≡ false) × (b'.total + b'.failures ≡ due nights + (idle.total + idle.failures))
scheduler_counts_example = scheduler_counts nightly nights idle refl refl
