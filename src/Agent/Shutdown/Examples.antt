-- ===== src/Agent/Shutdown/Examples.antt =====
-- Instances of the theorems on the node (cmd/ztre-agent/main.go).
use ztre.Base.{◌≤◌, ◌⊎◌, true, [], ◌∷◌, ◌≡◌, refl}
use ztre.Float64.{fixed}
use ztre.Containment.Retrying.{looping}
use ztre.Collector.Buffer.{receive}
use ztre.Agent.Examples.{ascii}
use ztre.Agent.Shutdown.{closed, taking, all_finished}
use ztre.Agent.Shutdown.Lossless.{IsLossless, Reach-IsLossless}
use ztre.Agent.Shutdown.Drain.{Work, Works, stays, then_works, receives, left, drain_ends}
use ztre.Agent.Shutdown.Places.{
  times, codec, Place, buffer, event, readings, place0, place6, shut_down, place0-IsLossless,
}

Reach-IsLossless_example : IsLossless place6
Reach-IsLossless_example =
    Reach-IsLossless looping ascii fixed codec times place0-IsLossless shut_down

-- Two events are left to a worker when the buffer is closed.
abbrev backlog : Place
backlog = record place0 {
  stage = closed;
  buffer = record buffer {
    queue = event ∷ event ∷ [];
    channel_closed = true;
    is_closed = true;
    close_done = true;
  };
}

abbrev begun : Place
begun = taking looping ascii fixed codec times backlog [] event []

one_step : Works looping ascii fixed codec times backlog 1 begun
unfolding receive
one_step = then_works stays (receives [] [] event refl refl)

drain_ends_example :
    (1 ≤ left backlog)
    × ((all_finished begun.workers ≡ true)
        ⊎ ((k : Place) × Work looping ascii fixed codec times begun k))
unfolding receive
drain_ends_example = drain_ends looping ascii fixed codec times backlog begun readings refl one_step
