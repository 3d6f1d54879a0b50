-- ===== src/Backup.antt =====
-- Backups and their retention (src/backup.go, with the counters of src/metrics.go that it writes).
pub mod Attempt
pub mod Sorting
pub mod Retention
pub mod Endpoint
use pg_guard.Prelude.{
  ℕ, zero, suc, ℤ, ◌+◌, ◌-◌, Bool, true, false, not, ◌&&◌, ◌||◌, Option, none, some, List, [], ◌∷◌,
  ◌++◌, Text, lit, text_eq, is_empty, ltb, leb, ◌==◌, if◌then◌else◌, length, take, keep_if, map,
}
use pg_guard.Config.{Config}
use pg_guard.Auth.{any_equal}

pub record Entry : Type 0 where
  pub name : Text
  pub is_dir : Bool

pub data BackupError : Type 0 where
  role_unknown not_primary in_progress_already : BackupError
  no_directory mkdir_failed clone_failed pipe_failed : BackupError

pub data Outcome : Type 0 where
  backed_up : Text → Outcome
  failed : BackupError → Outcome

-- The backup state of the process, and the backup directory.
pub record Backups : Type 0 where
  pub in_progress : Bool
  pub total : ℕ
  pub failures : ℕ
  pub last_backup : ℕ
  pub last_duration : ℕ
  -- Whether the last attempt succeeded.
  pub last_attempt : Option Bool
  pub entries : List Entry

-- What an attempt is answered: the role, the directory, the tools, the clock before and after, the
-- time stamp that names the backup, and which removals work.
pub record World : Type 0 where
  pub recovery : Option Bool
  pub makes_dir : Bool
  pub clones : Bool
  pub pipes : Bool
  pub begun : ℕ
  pub ended : ℕ
  pub stamp : Text
  pub lists : Bool
  pub removes : Text → Bool

-- `^\d{8}T\d{6}Z$`
abbrev pub is_digit : ℕ → Bool
is_digit c = leb 48 c && leb c 57

pub digits_then : ℕ → (Text → Bool) → Text → Bool
digits_then zero rest s = rest s
digits_then (suc n) rest [] = false
digits_then (suc n) rest (c ∷ s) = is_digit c && digits_then n rest s

pub letter_then : ℕ → (Text → Bool) → Text → Bool
letter_then l rest [] = false
letter_then l rest (c ∷ s) = c == l && rest s

unfoldable pub is_backup_name : Text → Bool
unfolding digits_then letter_then
is_backup_name = digits_then 8 (letter_then 84 (digits_then 6 (letter_then 90 is_empty)))

-- sort.Strings: byte by byte, a proper prefix first.
unfoldable pub text_leb : Text → Text → Bool
text_leb [] t = true
text_leb (x ∷ s) [] = false
text_leb (x ∷ s) (y ∷ t) = let rest = text_leb s t in ltb x y || (x == y && rest)

unfoldable pub insert_text : Text → List Text → List Text
insert_text x [] = x ∷ []
insert_text x (y ∷ ys) =
    let rest = insert_text x ys in if text_leb x y then x ∷ (y ∷ ys) else y ∷ rest

unfoldable pub sort_texts : List Text → List Text
sort_texts [] = []
sort_texts (x ∷ xs) = insert_text x (sort_texts xs)

abbrev pub names_of : List Entry → List Text
names_of [] = []
names_of (e ∷ es) =
    let rest = names_of es in if e.is_dir && is_backup_name e.name then e.name ∷ rest else rest

abbrev pub retained : ℤ → ℕ
retained (ℤ.pos n) = n
retained (ℤ.negsuc n) = 0

-- The names that are removed: all but the newest.
unfoldable pub surplus : ℕ → List Text → List Text
surplus retain names =
    if leb (length names) retain then [] else take (length names - retain) (sort_texts names)

abbrev pub without : Text → List Entry → List Entry
without n es = keep_if (λ e. not (text_eq n e.name)) es

-- The removals in order, up to the first that fails.
unfoldable pub remove_each : (Text → Bool) → List Text → List Entry → Bool × List Entry
remove_each removes [] es = (true, es)
remove_each removes (n ∷ ns) es =
    let rest = remove_each removes ns (without n es) in if removes n then rest else (false, es)

unfoldable pub prune_old_backups : World → Config → List Entry → Bool × List Entry
prune_old_backups w cfg es =
    if w.lists
    then remove_each w.removes (surplus (retained cfg.backup_retain) (names_of es)) es
    else (false, es)

module _ (w : World) (cfg : Config) where
  -- A backup into the directory; the new directory appears with the clone.
  abbrev pub cloned : Backups → Outcome × Backups
  cloned b =
      if is_empty cfg.backup_dir
      then (failed no_directory, b)
      else if not w.makes_dir
      then (failed mkdir_failed, b)
      else if not w.clones
      then (failed clone_failed, b)
      else (
        backed_up w.stamp,
        record b { entries = b.entries ++ (record { name = w.stamp; is_dir = true } ∷ []) },
      )

  -- The flag is taken for the time of the backup.
  abbrev exclusively : (Backups → Outcome × Backups) → Backups → Outcome × Backups
  exclusively go b =
      if b.in_progress
      then (failed in_progress_already, b)
      else (let (o, b') = go (record b { in_progress = true }) in
          (o, record b' { in_progress = false }))

  unfoldable pub run_backup : Backups → Outcome × Backups
  run_backup b = exclusively cloned b

  abbrev piped : Backups → Outcome × Backups
  piped b = (
    if w.pipes then backed_up (lit "(piped to PG_GUARD_BACKUP_COMMAND)") else failed pipe_failed,
    b,
  )

  unfoldable pub run_backup_pipe : Backups → Outcome × Backups
  run_backup_pipe b = exclusively piped b

  abbrev pub uses_directory : Bool
  uses_directory = is_empty cfg.backup_command

  abbrev recorded : Outcome × Backups → Outcome × Backups
  recorded (failed in_progress_already, b) = (failed in_progress_already, b)
  recorded (failed e, b) =
      (failed e, record b { failures = suc b.failures; last_attempt = some false })
  recorded (backed_up dest, b) = (
    backed_up dest,
    record b {
      last_duration = w.ended - w.begun;
      last_backup = w.ended;
      last_attempt = some true;
      total = suc b.total;
      entries = (if uses_directory then (prune_old_backups w cfg b.entries).1 else b.entries);
    },
  )

  abbrev by_role : Option Bool → Backups → Outcome × Backups
  by_role none b = (failed role_unknown, b)
  by_role (some true) b = (failed not_primary, b)
  by_role (some false) b = recorded (if uses_directory then run_backup b else run_backup_pipe b)

  unfoldable pub perform_backup : Backups → Outcome × Backups
  unfolding run_backup run_backup_pipe
  perform_backup b = by_role w.recovery b
