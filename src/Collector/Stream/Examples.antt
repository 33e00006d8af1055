-- ===== src/Collector/Stream/Examples.antt =====
-- A run of the stream's loop (pkg/collector/client.go).
use ztre.Base.{pos, lit, none, some, List, [], ◌∷◌, ◌≡◌, refl, length}
use ztre.Collector.Buffer.{EventBuffer, new_event_buffer, push, drop_event}
use ztre.Collector.Parser.{Process, process_exec, parse}
use ztre.Collector.Stream.{Received, response, end_of_file, closed_by_server, stream_events}

abbrev pub shell : Process
shell = record {
  pid = some 7;
  binary = lit "/bin/sh";
  arguments = [];
  pod = some (record {
    namespace = lit "shop";
    name = lit "web-0";
    workload_kind = lit "Deployment";
    workload = lit "web";
    container = none;
  });
}

abbrev pub started : Process → Received
started p =
    response
      (some (record {
        time = some 5;
        node_name = lit "n1";
        payload = process_exec (some (record { process = some p; parent = none; args = [] }));
      }))
      9

-- A buffer of one place: of two events of a pod and one of the host, one is kept and one dropped.
abbrev pub received : List Received
received = started shell ∷ started (record shell { pod = none }) ∷ started shell ∷ end_of_file ∷ []

abbrev pub small : EventBuffer
small = new_event_buffer (pos 1)

one_kept :
    let (b, outcome) = stream_events small received in
    (length b.queue ≡ 1) × (b.dropped_total ≡ 1) × (outcome ≡ closed_by_server)
unfolding stream_events new_event_buffer parse push drop_event
one_kept = (refl, refl, refl)
