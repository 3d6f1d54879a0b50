-- ===== src/Child/Aim.antt =====
-- Which process the supervisor acts on (src/supervisor.go and the stop files of the two systems).
use pg_guard.Prelude.{ℕ, Option, none, some, List, [], ◌∷◌, ◌≡◌, Text, arith}
use pg_guard.Config.{Config}
use pg_guard.Node.{Signal}
use pg_guard.Child.{
  Act, tried_start, sent_signal, sent_kill, ChildSupervisor, new_supervisor, Platform, linux,
  windows, start_supervised, signal_child, kill_child, stop_gracefully,
}

pub data Order : Type 0 where
  start_with : Option ℕ → Order
  stop_with : Signal → Order
  kill_now : Order

-- The process of the latest start, if that worked.
abbrev pub latest : List Act → Option ℕ
latest [] = none
latest (tried_start child ∷ acts) = child
latest (act ∷ acts) = latest acts

-- Every signal went to the process of the latest start before it.
abbrev pub Aimed : List Act → Type 0
Aimed [] = Unit
Aimed (sent_signal sig pid ∷ acts) = (latest acts ≡ some pid) × Aimed acts
Aimed (sent_kill pid ∷ acts) = (latest acts ≡ some pid) × Aimed acts
Aimed (act ∷ acts) = Aimed acts

module _ (platform : Platform) (sibling : Text → Text) (cfg : Config) where
  pub obey : Order → ChildSupervisor → ChildSupervisor
  obey (start_with child) sup = (start_supervised child sup).1
  obey (stop_with sig) sup = (stop_gracefully platform sibling cfg sig sup).1
  obey kill_now sup = (kill_child sup).1

  pub obey_all : List Order → ChildSupervisor → ChildSupervisor
  obey_all [] sup = sup
  obey_all (order ∷ orders) sup = obey_all orders (obey order sup)

abbrev Tracks : ChildSupervisor → Type 0
Tracks sup = (sup.process ≡ latest sup.acts) × Aimed sup.acts

obey-Tracks :
    (platform : Platform) (sibling : Text → Text) (cfg : Config) (order : Order)
    (sup : ChildSupervisor)
    → Tracks sup
    → Tracks (obey platform sibling cfg order sup)
unfolding obey start_supervised stop_gracefully signal_child kill_child
obey-Tracks platform sibling cfg (start_with child) sup h = ground arith
obey-Tracks linux sibling cfg (stop_with sig) sup h = ground arith
obey-Tracks windows sibling cfg (stop_with sig) sup h = ground arith
obey-Tracks platform sibling cfg kill_now sup h = ground arith

obey_all-Tracks :
    (platform : Platform) (sibling : Text → Text) (cfg : Config) (orders : List Order)
    (sup : ChildSupervisor)
    → Tracks sup
    → Tracks (obey_all platform sibling cfg orders sup)
unfolding obey_all
obey_all-Tracks platform sibling cfg [] sup h = h
obey_all-Tracks platform sibling cfg (order ∷ orders) sup h =
    obey_all-Tracks platform sibling cfg orders (obey platform sibling cfg order sup)
      (obey-Tracks platform sibling cfg order sup h)

-- On both systems, whatever starts, stops and kills are asked for in whatever order: each signal and
-- each kill goes to the process of the latest start before it, and none is sent after a start that
-- did not work.
pub obey_all-Aimed :
    (platform : Platform) (sibling : Text → Text) (cfg : Config) (orders : List Order)
    → Aimed (obey_all platform sibling cfg orders new_supervisor).acts
obey_all-Aimed platform sibling cfg orders =
    (obey_all-Tracks platform sibling cfg orders new_supervisor (ground arith)).1
