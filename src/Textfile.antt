-- ===== src/Textfile.antt =====
-- The file of metrics for the textfile collector (startTextfileWriter and writeTextfile of
-- src/textfile.go), in a directory whose path is clean. The text is the page of metrics, made anew for
-- each write.
pub mod Readers
use pg_guard.Prelude.{Bool, true, false, List, [], ◌∷◌, ◌++◌, Text, lit, if◌then◌else◌}
use pg_guard.Config.{Config}
use pg_guard.StateFile.{Answers, Disk, Saved, stopped_at, write_then_rename}

abbrev pub temp_path : Config → Text
temp_path cfg = cfg.textfile_dir ++ lit "/pg-guard.temp"

abbrev pub final_path : Config → Text
final_path cfg = cfg.textfile_dir ++ lit "/pg-guard.prom"

unfoldable pub write_textfile : Config → Answers → Text → Disk → Saved
write_textfile cfg answers body disk =
    if answers.makes_dir
    then write_then_rename answers.renames answers.written (temp_path cfg) (final_path cfg) body
        disk
    else stopped_at disk (disk ∷ [])

-- The first write and those of the ticks: the disks that they pass through, and the last one.
unfoldable pub write_all : Config → List (Answers × Text) → Disk → List Disk × Disk
unfolding write_textfile
write_all cfg [] disk = ([], disk)
write_all cfg ((answers, body) ∷ ticks) disk =
    let r = write_textfile cfg answers body disk in
    let (disks, last) = write_all cfg ticks r.final in (r.passed ++ (r.final ∷ disks), last)

unfoldable pub start_textfile_writer : Config → List (Answers × Text) → Disk → List Disk × Disk
unfolding write_all
start_textfile_writer cfg ticks disk =
    if cfg.textfile_enabled then write_all cfg ticks disk else ([], disk)
