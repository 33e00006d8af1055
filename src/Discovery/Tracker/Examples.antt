-- ===== src/Discovery/Tracker/Examples.antt =====
-- Runs of pkg/discovery/tracker.go and instances of its theorems.
use ztre.Base.{lit, GoString, some, List, [], ◌∷◌, ◌≡◌, refl}
use ztre.Base.Dict
use ztre.Base.FilePath.{base}
use ztre.Collector.Event.{SecurityEvent, execve, exit}
use ztre.Discovery.Tracker.{
  BehaviorTracker, new_tracker, pattern_key, track, is_nameless, contains_str, see_again,
  first_sight,
}
use ztre.Discovery.Tracker.Counts.{Sighting, track_all, Holds, times, track_all-Holds}

abbrev spawn : SecurityEvent
spawn = record {
  timestamp = 50;
  event_type = execve;
  pid = 7;
  binary = lit "/bin/sh";
  arguments = [];
  parent_pid = 1;
  parent_binary = lit "/usr/sbin/nginx";
  namespace = lit "shop";
  pod_name = lit "web-0";
  container_id = [];
  node_name = lit "n1";
  workload_kind = [];
  workload_name = lit "web";
}

-- The newest first: the same lineage at an earlier time, an exit, and a first sight.
abbrev history : List Sighting
history =
    record { event = record spawn { timestamp = 20; node_name = lit "n2" }; clock = 90; wall = 91 }
    ∷ record { event = record spawn { event_type = exit }; clock = 80; wall = 81 }
    ∷ record { event = spawn; clock = 70; wall = 71 }
    ∷ []

abbrev key : GoString
key = lit "shop/web/nginx→sh"

abbrev after : BehaviorTracker
after = track_all (new_tracker 5) history

two_seen :
    Dict.get after.patterns key
    ≡ some (record {
      parent_binary = lit "nginx";
      child_binary = lit "sh";
      namespace = lit "shop";
      workload_name = lit "web";
      count = 2;
      first_seen = 20;
      last_seen = 50;
      nodes = lit "n1" ∷ lit "n2" ∷ [];
    })
unfolding track_all track Dict.get Dict.put base is_nameless see_again first_sight contains_str
    pattern_key
two_seen = refl

track_all-Holds_example : Holds (Dict.get after.patterns key) (times key history)
track_all-Holds_example = track_all-Holds 5 history key
