-- ===== src/Agent/Shutdown/Restart.antt =====
-- What a restart finds of a run of the agent (cmd/ztre-agent/main.go, with pkg/discovery and
-- pkg/collector).
use ztre.Base.{ℕ, ◌+◌, ◌%◌, ◌^◌, GoString, true, false, List, ◌≡◌, sym, ap, ◌∙◌}
use ztre.Base.Dict
use ztre.Base.Dict.Keys.{IsMap}
use ztre.Float64.{Float64}
use ztre.Containment.{Retry}
use ztre.Discovery.Snapshots.{TimeText, Io, written, latest_name}
use ztre.Discovery.Tracker.{BehaviorTracker, new_tracker, load_patterns}
use ztre.Discovery.Tracker.Totals.{count_in, track_all-count}
use ztre.Discovery.Tracker.Restored.{track_all-IsMap, get-load_patterns}
use ztre.Discovery.Baseline.{Codec}
use ztre.Discovery.Baseline.Loading.{load_latest_snapshot}
use ztre.Discovery.Baseline.Restoring.{IsCodec, load_latest_snapshot-save_snapshot}
use ztre.Agent.Shutdown.{is_learning, all_finished, Node, save, Reach}
use ztre.Agent.Shutdown.Lossless.{IsLossless, drained_all, Reach-IsLossless}
use ztre.Agent.Shutdown.Workers.{tally}
use ztre.Agent.Shutdown.Learned.{sightings, is_learned, length-times, IsLearning, Reach-IsLearning}

module _ (retry : Retry) (u : ℕ → ℕ) (f : Float64) (c : Codec) (times_of : TimeText) where
  counts_taken :
      (origin : BehaviorTracker) (excluded : List GoString) (n : Node f c.Bytes) (k : GoString)
      → IsLossless n
      → IsLearning origin excluded n
      → all_finished n.workers ≡ true
      → count_in (Dict.get n.agent.tracker.patterns k) % 2 ^ 64
        ≡ (count_in (Dict.get origin.patterns k) + tally (is_learned excluded k) n.taken) % 2 ^ 64
  counts_taken origin excluded n k lossless learning all =
      let seen = sightings excluded n.handled in
      let before = count_in (Dict.get origin.patterns k) in
      rw learning.tracked (
        track_all-count origin seen k
        ∙ ap (λ x. (before + x) % 2 ^ 64)
            (length-times excluded k n.handled
              ∙ sym (drained_all n (is_learned excluded k) lossless all)))

  -- If the writes of the final snapshot of an agent that learns work, an agent that starts on its directory
  -- finds the patterns of its tracker.
  pub restart_finds :
      IsCodec c
      → (m : Node f c.Bytes) (io io' : Io c.Bytes) (at nano nano' later nano'' : ℕ)
      → times_of.parses latest_name ≡ false
      → io.mkdir_ok ≡ true
      → io.write ≡ written
      → io.write_latest ≡ written
      → is_learning m.agent.mode ≡ true
      → let bs = (save retry u f c times_of m io at nano nano').store in
        let t = m.agent.tracker in
        let (found, ok) = load_latest_snapshot c times_of io' bs (new_tracker later) later nano'' in
        (found.1
          ≡ load_patterns
              (new_tracker later)
              t.patterns
              t.total_events
              t.last_new_pattern
              t.started)
        × (ok ≡ true)
  unfolding save
  restart_finds laws m io io' at nano nano' later nano'' other made w l learns = rw learns (
      load_latest_snapshot-save_snapshot c times_of laws io io' m.store m.agent.tracker
        (new_tracker later) at nano nano' later nano'' other made w l)

  -- A shutdown loses nothing that was learned. Take any run of an agent in discovery or shadow mode, whatever
  -- its client, workers, snapshots and SIGHUPs did in between, up to the end of its last worker. If the writes
  -- of the final snapshot work, an agent that starts on its directory restores for the key of every lineage the
  -- count that the run began with plus the number of the events of that lineage that the buffer accepted outside
  -- the excluded namespaces, modulo 2^64.
  pub restart_counts :
      IsCodec c
      → (origin : BehaviorTracker) (excluded : List GoString) (n m : Node f c.Bytes)
        (io io' : Io c.Bytes) (at nano nano' later nano'' : ℕ) (k : GoString)
      → times_of.parses latest_name ≡ false
      → io.mkdir_ok ≡ true
      → io.write ≡ written
      → io.write_latest ≡ written
      → IsMap origin.patterns
      → IsLossless n
      → IsLearning origin excluded n
      → Reach retry u f c times_of n m
      → all_finished m.workers ≡ true
      → let bs = (save retry u f c times_of m io at nano nano').store in
        let (found, ok) = load_latest_snapshot c times_of io' bs (new_tracker later) later nano'' in
        (count_in (Dict.get found.1.patterns k) % 2 ^ 64
          ≡ (count_in (Dict.get origin.patterns k) + tally (is_learned excluded k) m.taken)
            % 2 ^ 64)
        × (ok ≡ true)
  restart_counts laws origin excluded n m io io' at nano nano' later nano'' k other made w l keys
        lossless learning run all =
      let lossless' = Reach-IsLossless retry u f c times_of lossless run in
      let learning' = Reach-IsLearning retry u f c times_of origin excluded learning run in
      let t = m.agent.tracker in
      let (whole, ok) =
        restart_finds laws m io io' at nano nano' later nano'' other made w l learning'.mode in
      let fresh : IsMap t.patterns =
        rw learning'.tracked (track_all-IsMap origin (sightings excluded m.handled) keys) in
      (
        ap (λ (bt : BehaviorTracker). count_in (Dict.get bt.patterns k) % 2 ^ 64) whole
            ∙ ap (λ o. count_in o % 2 ^ 64)
                (get-load_patterns later t.patterns t.total_events t.last_new_pattern t.started k
                  fresh)
            ∙ counts_taken origin excluded m k lossless' learning' all,
        ok,
      )
