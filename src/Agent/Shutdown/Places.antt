-- ===== src/Agent/Shutdown/Places.antt =====
-- A run of the node from its start to its last worker, for the instances of the theorems
-- (cmd/ztre-agent/main.go).
use ztre.Base.{◌&&◌, ◌==◌, pos, lit, has_prefix, false, Option, none, some, [], ◌∷◌, refl, arith}
use ztre.Float64.{fixed}
use ztre.Containment.Retrying.{looping}
use ztre.Collector.Event.{SecurityEvent}
use ztre.Collector.Buffer.{EventBuffer, push, receive, close}
use ztre.Discovery.Snapshots.{TimeText}
use ztre.Discovery.Baseline.Readable.{dots}
use ztre.Discovery.Baseline.{BaselineSnapshot, Codec, new_baseline_store}
use ztre.Agent.{discovery}
use ztre.Agent.Examples.{ascii, in_namespace, agent}
use ztre.Agent.Shutdown.{
  Readings, input_of, finished, cancelled, closed, Node, started, taking, handling, pushes, takes,
  handles, finishes, cancels, client_ends, loop_ends, closes, Reach, here, next,
}
use ztre.Agent.Shutdown.Lossless.{IsLossless}

abbrev pub times : TimeText
times = record {
  format = λ _. lit "20260101_000000";
  parses = λ s. has_prefix (lit "baseline_2") s && (dots s == 1);
}

abbrev pub codec : Codec
codec = record { Bytes = Option BaselineSnapshot; marshal = some; unmarshal = λ b. b }

abbrev pub Place : Type 0
Place = Node fixed (Option BaselineSnapshot)

abbrev pub buffer : EventBuffer
buffer = record {
  queue = [];
  channel_closed = false;
  capacity = 2;
  dropped = 0;
  is_closed = false;
  close_done = false;
  warnings = 0;
  ingested_total = 0;
  dropped_total = 0;
}

abbrev pub event : SecurityEvent
event = in_namespace (lit "payments")

abbrev pub readings : Readings
readings = record { clock = 10; wall = 11; now = 12; answers = λ _. none }

abbrev pub place0 : Place
place0 =
    started looping ascii fixed codec times (agent discovery none) buffer
      (new_baseline_store none (pos 0) (pos 40)) 1

-- An event is accepted, a worker takes it and handles it.
abbrev pub place1 : Place
place1 = record place0 {
  buffer = record buffer { queue = event ∷ []; ingested_total = 1 };
  taken = event ∷ [];
}

abbrev pub place2 : Place
place2 = taking looping ascii fixed codec times place1 [] event []

abbrev pub place3 : Place
place3 = handling looping ascii fixed codec times place2 [] (input_of event readings) []

-- The shutdown up to the close of the buffer, and the end of the worker.
abbrev pub place4 : Place
place4 = record place3 { stage = cancelled; client_running = false; loop_running = false }

abbrev pub place5 : Place
place5 = record place4 { stage = closed; buffer = (close place4.buffer).0 }

abbrev pub place6 : Place
place6 = record place5 { workers = finished ∷ [] }

abbrev pub To : Place → Type 0
To n = Reach looping ascii fixed codec times place0 n

accepted_first : To place1
unfolding push
accepted_first = next here (pushes event refl)

worked : To place3
unfolding receive
worked =
    next (next accepted_first (takes [] [] event refl refl)) (handles [] [] event readings refl)

pub shut_down : To place6
unfolding receive close
shut_down =
    next
      (next (next (next (next worked (cancels refl)) (client_ends refl)) (loop_ends refl))
        (closes refl refl refl))
      (finishes [] [] refl refl)

pub place0-IsLossless : IsLossless place0
place0-IsLossless = record {
  kept = λ q. refl;
  drained = λ d. cc;
  flag = refl;
  channel = refl;
  staffed = omega arith;
}
