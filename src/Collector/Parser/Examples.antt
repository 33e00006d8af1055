-- ===== src/Collector/Parser/Examples.antt =====
-- Runs of pkg/collector/parser.go and instances of its theorems.
use ztre.Base.{lit, contains, has_prefix, none, some, [], ◌∷◌, ◌≡◌, refl}
use ztre.Collector.Event.{SecurityEvent, kprobe}
use ztre.Collector.Parser.{Pod, Process, process_kprobe, process_exec, Response, add_args, parse}
use ztre.Collector.Parser.Relevance.{IsParsed, parse-IsParsed}

abbrev shop_pod : Pod
shop_pod = record {
  namespace = lit "shop";
  name = lit "web-0";
  workload_kind = lit "Deployment";
  workload = lit "web";
  container = none;
}

abbrev cat_process : Process
cat_process = record {
  pid = some 42;
  binary = lit "/bin/cat";
  arguments = lit "-n";
  pod = some shop_pod;
}

abbrev opened : Response
opened = record {
  time = none;
  node_name = lit "n1";
  payload = process_kprobe (
      some (record {
        process = some cat_process;
        parent = none;
        args = lit "/etc/shadow" ∷ lit "/etc" ∷ lit "" ∷ [];
      }));
}

abbrev seen : SecurityEvent
seen = record {
  timestamp = 9;
  event_type = kprobe;
  pid = 42;
  binary = lit "/bin/cat";
  arguments = lit "-n /etc/shadow";
  parent_pid = 0;
  parent_binary = [];
  namespace = lit "shop";
  pod_name = lit "web-0";
  container_id = [];
  node_name = lit "n1";
  workload_kind = lit "Deployment";
  workload_name = lit "web";
}

opened_parses : parse 9 (some opened) ≡ some seen
unfolding parse add_args contains has_prefix
opened_parses = refl

-- A host process has no pod and is left out.
host_skipped :
    parse 9 (
      some (record opened {
        payload = process_exec (
            some (record {
              process = some (record cat_process { pod = none });
              parent = none;
              args = [];
            }));
      }))
    ≡ none
unfolding parse
host_skipped = refl

parse-IsParsed_example : IsParsed seen
parse-IsParsed_example = parse-IsParsed 9 (some opened) seen opened_parses
