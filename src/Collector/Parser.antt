-- ===== src/Collector/Parser.antt =====
-- pkg/collector/parser.go: from a Tetragon response to a security event. The response's types are
-- Tetragon's; the records here hold the fields that the parser reads, a pointer as an `Option`.
pub mod Relevance
pub mod Arguments
mod Examples
use ztre.Base.{
  ℕ, GoString, lit, contains, is_empty, Bool, true, false, Option, none, some, List, [], ◌∷◌, ◌++◌,
  if◌then◌else◌,
}
use ztre.Collector.Event.{SecurityEvent, EventType, execve, exit, kprobe}

pub record Pod : Type 0 where
  pub namespace : GoString
  pub name : GoString
  pub workload_kind : GoString
  pub workload : GoString
  -- the container's id
  pub container : Option GoString

pub record Process : Type 0 where
  pub pid : Option ℕ
  pub binary : GoString
  pub arguments : GoString
  pub pod : Option Pod

-- A process event, with the string arguments of its probe ("" for an argument of another kind).
pub record ProcessEvent : Type 0 where
  pub process : Option Process
  pub parent : Option Process
  pub args : List GoString

-- The oneof of the response; the event inside may be a nil pointer.
pub data Payload : Type 0 where
  process_exec process_exit process_kprobe : Option ProcessEvent → Payload
  other : Payload

pub record Response : Type 0 where
  pub time : Option ℕ
  pub node_name : GoString
  pub payload : Payload

abbrev or_zero : Option ℕ → ℕ
or_zero none = 0
or_zero (some n) = n

abbrev or_empty : Option GoString → GoString
or_empty none = []
or_empty (some s) = s

abbrev pid_of : Option Process → ℕ
pid_of none = 0
pid_of (some p) = or_zero p.pid

abbrev binary_of : Option Process → GoString
binary_of none = []
binary_of (some p) = p.binary

abbrev event_in : Process → Option Process → EventType → GoString → ℕ → Pod → SecurityEvent
event_in proc parent kind node_name event_time pod = record {
  timestamp = event_time;
  event_type = kind;
  pid = or_zero proc.pid;
  binary = proc.binary;
  arguments = proc.arguments;
  parent_pid = pid_of parent;
  parent_binary = binary_of parent;
  namespace = pod.namespace;
  pod_name = pod.name;
  container_id = or_empty pod.container;
  node_name = node_name;
  workload_kind = pod.workload_kind;
  workload_name = pod.workload;
}

abbrev in_pod :
    Process → Option Process → EventType → GoString → ℕ → Option Pod → Option SecurityEvent
in_pod proc parent kind node_name event_time none = none
in_pod proc parent kind node_name event_time (some pod) =
    if is_empty pod.namespace
    then none
    else some (event_in proc parent kind node_name event_time pod)

unfoldable pub build_security_event :
    Option Process → Option Process → EventType → GoString → ℕ → Option SecurityEvent
build_security_event none parent kind node_name event_time = none
build_security_event (some proc) parent kind node_name event_time =
    in_pod proc parent kind node_name event_time proc.pod

-- The loop over the probe's arguments.
unfoldable pub add_args : GoString → List GoString → GoString
add_args arguments [] = arguments
add_args arguments (s ∷ rest) =
    add_args
      (if is_empty s
        then arguments
        else if is_empty arguments
        then s
        else if contains arguments s
        then arguments
        else arguments ++ (lit " " ++ s))
      rest

abbrev with_args : List GoString → Option SecurityEvent → Option SecurityEvent
with_args args none = none
with_args args (some e) = some (record e { arguments = add_args e.arguments args })

abbrev time_or : Option ℕ → ℕ → ℕ
time_or none now = now
time_or (some t) now = t

unfoldable pub parse_payload : Payload → GoString → ℕ → Option SecurityEvent
unfolding build_security_event
parse_payload (process_exec none) node_name time = none
parse_payload (process_exec (some ev)) node_name time =
    build_security_event ev.process ev.parent execve node_name time
parse_payload (process_exit none) node_name time = none
parse_payload (process_exit (some ev)) node_name time =
    build_security_event ev.process ev.parent exit node_name time
parse_payload (process_kprobe none) node_name time = none
parse_payload (process_kprobe (some ev)) node_name time =
    with_args ev.args (build_security_event ev.process ev.parent kprobe node_name time)
parse_payload other node_name time = none

-- `Parse`; it never returns an error. `now` is the clock, read where the response has no time.
unfoldable pub parse : ℕ → Option Response → Option SecurityEvent
unfolding parse_payload
parse now none = none
parse now (some res) = parse_payload res.payload res.node_name (time_or res.time now)
