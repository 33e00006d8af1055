-- ===== src/Lib.antt =====
-- ZTRE is an agent on a Kubernetes node. It reads the process events of Tetragon, learns which parent
-- starts which child, classifies a lineage against a whitelist, scores the risk of an event, and alerts
-- on it or cuts the pod off the network. The parts and their modules:
--
--   Collector      pkg/collector. Event: the event of types.go. Buffer: EventBuffer, whose channel is a list
--                  with a capacity (push, receive for a worker's range loop, close). Parser: Parse and
--                  buildSecurityEvent. Client: NewClient and the waits of Start's loop. Stream: the receive loop
--                  of streamEvents, into the buffer. Session: streamEvents with its dial, and Start around it.
--   Validator      pkg/validator: Load, LoadMulti, NewWhitelist, Classify.
--   Risk           pkg/risk: the policy, the namespace cache, the severity tests, Calculate, Zone.
--   Decision       pkg/decision: NewEngine, UpdateThresholds, Evaluate; Alert is NewAlert of types.go, and
--                  Dispatcher is dispatcher.go.
--   Containment    pkg/containment/executor.go: Quarantine, IsQuarantined, ResetCache. Workers has the
--                  same call split where other workers can come between. Cluster is NewInClusterExecutor.
--   Discovery      pkg/discovery. Tracker, Statistics (GetStats) and Profiles (GetProfiles) are tracker.go;
--                  Snapshots the files of the snapshot directory (atomic.go, and the listing and pruning of
--                  baseline.go), Baseline the rest of baseline.go; Reporter the generated whitelist, Report the
--                  report, and WhitelistFile the file of reporter.go that the validator reads.
--   Config         pkg/config: LoadAgentConfig and IsNamespaceExcluded.
--   Agent          cmd/ztre-agent/main.go: `process` is the body of a worker's loop and calls the modules
--                  above as main does. Startup is the reading of flags and file, Assembly the way from there to
--                  the running agent or to an exit, Reload the SIGHUP handler, and Shutdown the running node:
--                  client, buffer, workers, snapshot loop, SIGHUPs and main's shutdown as steps, with the last
--                  snapshot (`save`) and the last report and whitelist (Shutdown.Reports). Assembly.Lifecycle,
--                  Learning and Recovery join one start to a later one by the files that stand between them.
--   Observability  pkg/observability: the metrics and their registration; Server is the metrics and health
--                  server.
--   VulnerableWeb  deploy/workloads/vulnerable-web: the handlers of the demonstration target.
--   Base           texts (lists of characters), maps (association lists), filepath.Base and Join, `int` with
--                  its wrap-around, %d. Files is what reading and decoding a file gives. Float64 is the
--                  interface of float64, with the laws of IEEE 754 that the theorems use as hypotheses and
--                  fixed-point numbers that satisfy them.
--
-- A method that holds a lock is one step, and concurrency is a sequence of such steps: the calls of a
-- buffer, the steps of the node (Agent.Shutdown.Step), the moves of the agent (an event handled, or a step of
-- a SIGHUP), the steps of the workers inside `Quarantine`, and a permutation of the sends of a broadcast. In the
-- node the handling of an event is one step, and Containment.Workers splits it where workers share the cache. Metrics
-- are counters in the states; log lines are left out unless a branch does nothing else. Times are nanoseconds since
-- Go's zero time.
--
-- Code outside the repository is a parameter: YAML and JSON (a file is one of four results, and a
-- document that is written is read back by the library's law), the clock and its text in the snapshots' names (no
-- temporary file's name parses as one), the file system's answers, the API
-- server's answers, client-go's retry.OnError (with its documented law, and a loop that has it), client-go's
-- configuration, the HTTP client and server, gRPC's answers, Prometheus' registry (with its documented laws, and a
-- list that has them), the shell, the lower case of a character and float64. The retry has the three steps of the
-- source. The decimal digits of a uint32 are ten at most, those of a positive `int` nineteen and those of a uint64
-- twenty, which is the fuel of `digits`. All other recursion is structural.
--
-- Not modelled: the text form of a Duration (time.ParseDuration behind the YAML library), the log lines, the
-- JSON of alerts, and the order in which Go walks a map where the code sorts afterwards. The helpers of the tests,
-- charts, scripts and the webhook receiver are no part of the agent.
pub mod Base
pub mod Float64
pub mod Files
pub mod Collector
pub mod Validator
pub mod Risk
pub mod Decision
pub mod Containment
pub mod Discovery
pub mod Config
pub mod Agent
pub mod Observability
pub mod VulnerableWeb
