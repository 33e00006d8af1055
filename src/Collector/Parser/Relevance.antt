-- ===== src/Collector/Parser/Relevance.antt =====
-- Which events the parser lets through (pkg/collector/parser.go).
use ztre.Base.{ℕ, GoString, is_empty, false, Option, none, some, ◌≡◌, ◌⊎◌, arith}
use ztre.Collector.Event.{SecurityEvent, EventType, execve, exit, kprobe}
use ztre.Collector.Parser.{
  Process, Payload, process_exec, process_exit, process_kprobe, other, Response,
  build_security_event, time_or, parse_payload, parse,
}

-- What every event that leaves the parser satisfies.
pub record IsParsed (e : SecurityEvent) : Type 0 where
  pub in_namespace : is_empty e.namespace ≡ false
  pub kind : (e.event_type ≡ execve) ⊎ ((e.event_type ≡ exit) ⊎ (e.event_type ≡ kprobe))

build_namespace :
    (proc parent : Option Process) (kind : EventType) (node : GoString) (time : ℕ)
    (e : SecurityEvent)
    → build_security_event proc parent kind node time ≡ some e
    → (is_empty e.namespace ≡ false) × (e.event_type ≡ kind)
unfolding build_security_event
build_namespace none parent kind node time e h = cc
build_namespace (some proc) parent kind node time e h = ground arith

payload-IsParsed :
    (p : Payload) (node : GoString) (time : ℕ) (e : SecurityEvent)
    → parse_payload p node time ≡ some e
    → IsParsed e
unfolding parse_payload
payload-IsParsed (process_exec none) node time e h = absurd (ground arith)
payload-IsParsed (process_exec (some ev)) node time e h =
    ground (arith, build_namespace ev.process ev.parent execve node time e)
payload-IsParsed (process_exit none) node time e h = absurd (ground arith)
payload-IsParsed (process_exit (some ev)) node time e h =
    ground (arith, build_namespace ev.process ev.parent exit node time e)
payload-IsParsed (process_kprobe none) node time e h = absurd (ground arith)
payload-IsParsed (process_kprobe (some ev)) node time e h = ground arith
payload-IsParsed other node time e h = absurd (ground arith)

-- Every event that the parser returns belongs to a namespace and is an execve, an exit or a kprobe
-- event: host processes and other responses are left out, and no event of the file-access kind is ever
-- made.
pub parse-IsParsed :
    (now : ℕ) (res : Option Response) (e : SecurityEvent) → parse now res ≡ some e → IsParsed e
unfolding parse
parse-IsParsed now none e h = absurd (ground arith)
parse-IsParsed now (some res) e h =
    payload-IsParsed res.payload res.node_name (time_or res.time now) e h
