-- ===== src/Collector/Buffer/Examples.antt =====
-- Runs of pkg/collector/buffer.go and instances of its theorems.
use ztre.Base.{ℕ, pos, lit, none, some, List, [], ◌∷◌, ◌≡◌, refl}
use ztre.Collector.Event.{SecurityEvent, execve}
use ztre.Collector.Buffer.{new_event_buffer, push, receive, close, ended}
use ztre.Collector.Buffer.Fifo.{
  Call, pushes, receives, closes, Run, call, calls, IsExact, calls-IsExact, start, receive_times,
  close_drains, new_event_buffer-IsExact,
}

abbrev numbered : ℕ → SecurityEvent
numbered n = record {
  timestamp = n;
  event_type = execve;
  pid = n;
  binary = lit "/bin/sh";
  arguments = [];
  parent_pid = 1;
  parent_binary = lit "/usr/sbin/nginx";
  namespace = lit "shop";
  pod_name = lit "web-0";
  container_id = [];
  node_name = lit "n1";
  workload_kind = [];
  workload_name = lit "web";
}

abbrev script : List Call
script =
    pushes (some (numbered 1))
    ∷ pushes none
    ∷ pushes (some (numbered 2))
    ∷ pushes (some (numbered 3))
    ∷ receives
    ∷ closes
    ∷ closes
    ∷ pushes (some (numbered 4))
    ∷ receives
    ∷ []

abbrev two_slots : Run
two_slots = start (new_event_buffer (pos 2))

-- The third event finds the queue full, and the fourth finds it closed.
script_delivers : (calls two_slots script).delivered ≡ numbered 1 ∷ numbered 2 ∷ []
unfolding calls call push receive close new_event_buffer
script_delivers = refl

script_drops : (calls two_slots script).buffer.dropped ≡ 1
unfolding calls call push receive close new_event_buffer
script_drops = refl

calls-IsExact_example : IsExact (calls two_slots script)
calls-IsExact_example = calls-IsExact two_slots script (new_event_buffer-IsExact (pos 2)).0

abbrev busy : Run
busy = calls two_slots (pushes (some (numbered 1)) ∷ pushes (some (numbered 2)) ∷ [])

close_drains_example :
    ((calls (call busy closes) (receive_times 2)).delivered ≡ numbered 1 ∷ numbered 2 ∷ [])
    × ((receive (calls (call busy closes) (receive_times 2)).buffer).1 ≡ ended)
unfolding calls call push new_event_buffer
close_drains_example =
    close_drains busy
      (calls-IsExact two_slots (pushes (some (numbered 1)) ∷ pushes (some (numbered 2)) ∷ [])
        (new_event_buffer-IsExact (pos 2)).0).fifo
