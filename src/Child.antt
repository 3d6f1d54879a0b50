-- ===== src/Child.antt =====
-- The supervised process and the tools that are run to their end (src/supervisor.go, src/child.go,
-- src/runcmd.go, src/stop_linux.go and src/stop_windows.go).
pub mod Scanning
pub mod Commands
pub mod Aim
use pg_guard.Prelude.{
  ℕ, suc, Bool, true, false, Option, none, some, List, [], ◌∷◌, ◌++◌, map, Text, lit, is_empty, ltb,
  ◌==◌, if◌then◌else◌, length, is_some, newline, split_lines,
}
use pg_guard.Config.{Config}
use pg_guard.Node.{Node, Signal}
use pg_guard.Log.{LogLevel}
use pg_guard.Log.Severity.{classify_postgres_line}

-- bufio.MaxScanTokenSize: a line that does not fit, with its newline, ends the scan for good.
abbrev pub max_token : ℕ
max_token = 65536

-- One carriage return at the end of a line is dropped.
unfoldable pub drop_return : Text → Text
drop_return [] = []
drop_return (c ∷ []) = if c == 13 then [] else c ∷ []
drop_return (c ∷ d ∷ s) = c ∷ drop_return (d ∷ s)

-- The lines that a bufio.Scanner finds in pieces between newlines; the last piece has no newline.
unfoldable pub scan_pieces : List Text → List Text
unfolding drop_return
scan_pieces [] = []
scan_pieces (l ∷ []) =
    if is_empty l then [] else if ltb (length l) max_token then drop_return l ∷ [] else []
scan_pieces (l ∷ m ∷ ls) =
    let rest = scan_pieces (m ∷ ls) in if ltb (length l) max_token then drop_return l ∷ rest else []

-- What `for sc.Scan() { line := sc.Text() … }` runs through, of all that a pipe delivers.
unfoldable pub scan_lines : Text → List Text
unfolding scan_pieces split_lines
scan_lines s = scan_pieces (split_lines s)

-- The records that streamPostgresOutput logs. The marks of the node are those at each line.
abbrev pub log_at : (ℕ → Node) → ℕ → List Text → List (LogLevel × Text)
log_at marks n [] = []
log_at marks n (l ∷ ls) = (classify_postgres_line (marks n) l, l) ∷ log_at marks (suc n) ls

unfoldable pub stream_postgres_output : (ℕ → Node) → Text → List (LogLevel × Text)
unfolding scan_lines
stream_postgres_output marks s = log_at marks 0 (scan_lines s)

-- The order in which the two goroutines of runLoggedCommand take the lock: true for the one that
-- reads stdout, while both have a line left.
unfoldable pub merge : List Bool → List Text → List Text → List Text
merge order [] ys = ys
merge order (x ∷ xs) [] = x ∷ xs
merge [] (x ∷ xs) (y ∷ ys) = x ∷ merge [] xs (y ∷ ys)
merge (true ∷ order) (x ∷ xs) (y ∷ ys) = x ∷ merge order xs (y ∷ ys)
merge (false ∷ order) (x ∷ xs) (y ∷ ys) = y ∷ merge order (x ∷ xs) ys

-- `buf`: each line and a newline.
unfoldable pub buffer : List Text → Text
buffer [] = []
buffer (l ∷ ls) = l ++ (newline ∷ buffer ls)

pub data CommandResult : Type 0 where
  not_run : CommandResult
  ran : Text → CommandResult
  exit_status : ℕ → Text → CommandResult

abbrev pub result_of : ℕ → Text → CommandResult
result_of code out = if code == 0 then ran out else exit_status code out

-- A command whose pipes or whose process cannot be made is not run.
unfoldable pub run_logged_command : Bool → List Bool → Text → Text → ℕ → CommandResult
unfolding merge buffer scan_lines
run_logged_command starts order stdout stderr code =
    if starts
    then result_of code (buffer (merge order (scan_lines stdout) (scan_lines stderr)))
    else not_run

-- What the supervisor asks of the operating system.
pub data Act : Type 0 where
  tried_start : Option ℕ → Act
  sent_signal : Signal → ℕ → Act
  sent_kill : ℕ → Act
  ran_pg_ctl : Text → List Text → Act

-- `supervisor`: the process of its command, if it has one, with its acts, the newest first.
pub record ChildSupervisor : Type 0 where
  pub process : Option ℕ
  pub acts : List Act

abbrev pub new_supervisor : ChildSupervisor
new_supervisor = record { process = none; acts = [] }

-- The files of src for the two systems.
pub data Platform : Type 0 where
  linux windows : Platform

-- Each new command replaces the one before, whether its process starts or not.
unfoldable pub start_supervised : Option ℕ → ChildSupervisor → Bool × ChildSupervisor
start_supervised child sup =
    (is_some child, record { process = child; acts = tried_start child ∷ sup.acts })

abbrev to_process : (ℕ → Act) → Option ℕ → ChildSupervisor → Bool × ChildSupervisor
to_process act none sup = (false, sup)
to_process act (some pid) sup = (true, record sup { acts = act pid ∷ sup.acts })

-- Whether the signal was handed to the system; the answer of the system is apart from that.
unfoldable pub signal_child : Signal → ChildSupervisor → Bool × ChildSupervisor
signal_child sig sup = to_process (sent_signal sig) sup.process sup

unfoldable pub kill_child : ChildSupervisor → Bool × ChildSupervisor
kill_child sup = to_process sent_kill sup.process sup

-- `sibling` is the path of pg_ctl.exe beside the supervised binary.
unfoldable pub stop_gracefully :
    Platform → (Text → Text) → Config → Signal → ChildSupervisor → Bool × ChildSupervisor
unfolding signal_child
stop_gracefully linux sibling cfg sig sup = signal_child sig sup
stop_gracefully windows sibling cfg sig sup = if is_empty cfg.pg_data then (false, sup) else (
  true,
  record sup {
    acts =
        ran_pg_ctl (sibling cfg.postgres_bin)
          (lit "stop" ∷ (lit "-D" ∷ (cfg.pg_data ∷ (lit "-m" ∷ (lit "fast" ∷ [])))))
        ∷ sup.acts;
  },
)
