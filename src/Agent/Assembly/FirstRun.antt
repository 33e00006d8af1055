-- ===== src/Agent/Assembly/FirstRun.antt =====
-- A start of the agent on a node with an earlier baseline, and a run of it (cmd/ztre-agent/main.go).
use ztre.Base.{pos, GoString, lit, text_eq, true, false, Option, none, some, [], ◌∷◌, ◌≡◌, refl}
use ztre.Float64.{fixed}
use ztre.Files.{not_exist, decoded}
use ztre.Containment.Retrying.{looping}
use ztre.Decision.Dispatcher.{no_response}
use ztre.Collector.Buffer.{new_event_buffer, push, receive, close}
use ztre.Discovery.Snapshots.{file, written, latest_name}
use ztre.Discovery.Baseline.{BaselineSnapshot, learning}
use ztre.Discovery.Tracker.{ExecutionPattern}
use ztre.Discovery.WhitelistFile.{WhitelistConfig}
use ztre.Discovery.WhitelistFile.Documents.{documents, working}
use ztre.Agent.Examples.{ascii, engine, policy}
use ztre.Agent.Startup.{Flags, mode_of, resolve}
use ztre.Agent.Shutdown.{
  Node, Reach, here, next, cancels, pushes, takes, handles, finishes, client_ends, loop_ends,
  closes, pushed, taking, handling, input_of, cancelled, closed, finished,
}
use ztre.Agent.Assembly.Soundness.{node_with, assembled}
use ztre.Agent.Shutdown.Places.{times, codec, event, readings}
use ztre.Agent.Assembly.{World, Start, running, restored, engines, assemble}

abbrev pub Bytes : Type 0
Bytes = Option BaselineSnapshot

abbrev pub Doc : Type 0
Doc = GoString × WhitelistConfig

abbrev pub flags : GoString → Flags
flags mode = record {
  socket_path = [];
  socket_path_set = false;
  metrics_addr = [];
  metrics_addr_set = false;
  buffer_size = pos 2;
  buffer_size_set = true;
  worker_count = pos 1;
  worker_count_set = true;
  whitelist_path = lit "wl.yaml";
  whitelist_path_set = true;
  mode = mode;
}

-- A node without files, whose cluster takes the agent.
abbrev pub bare : GoString → World fixed Bytes Doc
bare mode = record {
  flags = flags mode;
  config = none;
  gen_report = false;
  webhook_url = [];
  whitelist = not_exist;
  manual = not_exist;
  policy = decoded policy;
  cluster = record {
    in_cluster = true;
    kubeconfig = [];
    home = [];
    builds = λ path. false;
    connects = true;
  };
  post = λ hook alert. no_response;
  disk = none;
  whitelist_dir = [];
  io = record {
    mkdir_ok = true;
    write = written;
    write_latest = written;
    list_ok = true;
    removes = λ name. true;
  };
  now = 1;
  loaded_at = 2;
  nano = 3;
  answers = record {
    report_io = record { mkdir_ok = true; write = written };
    report_clock = record { at_stats = 90; at_status = 91; at_end = 92 };
    report_nano = 1;
    whitelist_io = working;
    generated = 93;
    window_end = 94;
    whitelist_nano = 2;
  };
}

abbrev pub begin : World fixed Bytes Doc → Start fixed Bytes
begin w = assemble looping ascii fixed codec times documents (λ z. []) (λ r. none) engine w

abbrev pub key : GoString
key = lit "payments/web/nginx→nc"

-- What earlier runs learned: nginx started nc nine times, over two hours.
abbrev pub known : ExecutionPattern
known = record {
  parent_binary = lit "nginx";
  child_binary = lit "nc";
  namespace = lit "payments";
  workload_name = lit "web";
  count = 9;
  first_seen = 0;
  last_seen = 7200000000000;
  nodes = [];
}

abbrev pub previous : BaselineSnapshot
previous = record {
  timestamp = 0;
  learning_start = 0;
  total_events = 9;
  unique_patterns = 1;
  patterns = (key, known) ∷ [];
  stability = learning;
  last_new_pattern = 0;
}

-- A start in discovery mode, and a run of it: an event comes in and is handled, and the agent shuts down up to
-- the end of its worker.
abbrev pub first : World fixed Bytes Doc
first = record (bare (lit "discovery")) { disk = some ((latest_name, file (some previous)) ∷ []) }

abbrev pub Place : Type 0
Place = Node fixed Bytes

abbrev pub node0 : Place
node0 =
    node_with looping ascii fixed codec times documents (λ z. []) (λ r. none) engine first
      (record { whitelist = []; engine = engine; executor = none })

abbrev pub node1 : Place
node1 = pushed looping ascii fixed codec times node0 event (push node0.buffer (some event))

abbrev pub node2 : Place
node2 = taking looping ascii fixed codec times node1 [] event []

abbrev pub node3 : Place
node3 = handling looping ascii fixed codec times node2 [] (input_of event readings) []

abbrev pub node4 : Place
node4 = record node3 { stage = cancelled; client_running = false; loop_running = false }

abbrev pub node5 : Place
node5 = record node4 { stage = closed; buffer = (close node4.buffer).0 }

abbrev pub node6 : Place
node6 = record node5 { workers = finished ∷ [] }

pub started_first :
    assembled looping ascii fixed codec times documents (λ z. []) (λ r. none) engine first
    ≡ running node0
unfolding assemble restored engines resolve mode_of text_eq
started_first = refl

pub first_run : Reach looping ascii fixed codec times node0 node6
unfolding resolve push receive close new_event_buffer mode_of text_eq
first_run =
    let served =
      next (next (next here (pushes event refl)) (takes [] [] event refl refl))
        (handles [] [] event readings refl) in
    let stopping = next (next (next served (cancels refl)) (client_ends refl)) (loop_ends refl) in
    next (next stopping (closes refl refl refl)) (finishes [] [] refl refl)
