-- ===== src/Examples/Logs.antt =====
-- Statements on the log and on the reaper, tried on concrete ones.
use pg_guard.Prelude.{◌≡◌, refl, none, some, [], ◌∷◌, Text, lit, text_eq, arith}
use pg_guard.Log.{default_logging, log_info, level_string, to_lower}
use pg_guard.Log.Lines.{json_line, log_sourced}
use pg_guard.Log.Reading.{IsShared, read_record, json_reads_back}
use pg_guard.Log.Shapes.{IsHead, IsSeverity}
use pg_guard.Reaper.{
  Reaper, new_reaper, exited, signaled, collect, reap, track_child, code_of, waiter_of,
}
use pg_guard.Reaper.Delivery.{Runs, begun, tracked, Accounted, exits-Accounted, exit_delivered}

abbrev stamp : Text
stamp = lit "2026-01-02T03:04:05Z"

abbrev message : Text
message = lit "say \"no\"\nand stop"

abbrev written : Text
written = json_line stamp log_info message (lit "postgres")

emits : log_sourced default_logging stamp log_info (lit "postgres") message ≡ some written
unfolding log_sourced
emits = refl

stamp-IsShared : IsShared stamp
stamp-IsShared = ground arith

source-IsShared : IsShared (lit "postgres")
source-IsShared = ground arith

message-IsShared : IsShared message
message-IsShared = ground arith

json_reads_back_example :
    read_record written ≡ some (stamp, to_lower (level_string log_info), message, lit "postgres")
json_reads_back_example =
    json_reads_back default_logging stamp log_info (lit "postgres") message written refl
      stamp-IsShared source-IsShared message-IsShared emits

abbrev head : Text
head = lit "2026-01-02 03:04:05 UTC [50"

abbrev noise : Text
noise = lit "  terminating connection due to administrator command"

head-IsHead : IsHead head
head-IsHead = ground arith

fatal-IsSeverity : IsSeverity (lit "FATAL")
unfolding text_eq
fatal-IsSeverity = record {
  some_byte = refl;
  capital = refl;
  solid = refl;
  before_colon = ground arith;
}

-- A first child has been started.
abbrev started : Reaper
started = (track_child (some 7) new_reaper).1

runs : Runs started
unfolding waiter_of
runs = tracked 7 begun refl

exits-Accounted_example : Accounted started
exits-Accounted_example = exits-Accounted started runs

free : waiter_of 8 started.waiters ≡ none
unfolding waiter_of track_child
free = refl

exit_delivered_example :
    let r = reap ((7, exited 0) ∷ ((9, signaled 9) ∷ [])) (track_child (some 8) started).1 in
    (collect 8 (signaled 15) r).sent ≡ (started.channels, code_of (signaled 15)) ∷ r.sent
exit_delivered_example =
    exit_delivered started 8 ((7, exited 0) ∷ ((9, signaled 9) ∷ [])) (signaled 15) runs free
      (refl, (refl, tt))
