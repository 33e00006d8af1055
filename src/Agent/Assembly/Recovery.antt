-- ===== src/Agent/Assembly/Recovery.antt =====
-- A start of the agent after a crash (cmd/ztre-agent/main.go).
mod Examples
use mathlib.Core.Path.{subst}
use ztre.Base.{
  ℕ, GoString, Option, List, [], ◌++◌, ◌≡◌, ◌≢◌, true, refl, sym, ap, ◌∙◌, inl, inr, ◌⊎◌,
}
use ztre.Base.Dict
use ztre.Base.Dict.Keys.{IsMap}
use ztre.Float64.{Float64}
use ztre.Files.{decoded}
use ztre.Containment.{Retry}
use ztre.Risk
use ztre.Discovery.Snapshots.{TimeText, latest_name}
use ztre.Discovery.Tracker.{BehaviorTracker, new_tracker, load_patterns, put_all}
use ztre.Discovery.Tracker.Counts.{track_all}
use ztre.Discovery.Tracker.Restored.{track_all-IsMap, get-load_patterns}
use ztre.Discovery.Baseline.{BaselineSnapshot, Codec, entries}
use ztre.Discovery.Baseline.Loading.{read_snapshot}
use ztre.Discovery.Baseline.Restoring.{IsCodec}
use ztre.Discovery.Baseline.Readable.{IsTimeText, AllReadable}
use ztre.Discovery.Baseline.Found.{with_snapshot, load_latest_snapshot-found}
use ztre.Discovery.Report.{BaselineReport}
use ztre.Discovery.WhitelistFile.{Yaml}
use ztre.Agent.{Input}
use ztre.Agent.Shutdown.{Node, is_learning, Reach}
use ztre.Agent.Shutdown.Learned.{sightings}
use ztre.Agent.Shutdown.Crash.{IsEarlier, IsThere, Known, Reach-AllReadable}
use ztre.Agent.Assembly.{World, running, config_of, new_store, restored}
use ztre.Agent.Assembly.Soundness.{assembled}
use ztre.Agent.Assembly.Lifecycle.{restored-IsMap, started-IsLearning, new_store-disk}

module _ (retry : Retry) (u : ℕ → ℕ) (f : Float64) (c : Codec) (times : TimeText) where
  -- What a tracker was restored from, after the run from `n` to `m`: nothing, for want of a latest file that
  -- gives a snapshot; a snapshot that the run began with; or the run itself, after the oldest of the events
  -- that it had handled.
  pub data IsRecovered (origin : BehaviorTracker) (excluded : List GoString) (n m : Node f c.Bytes)
      (t : BehaviorTracker) : Type 0 where
    from_nothing :
        t.patterns ≡ []
        → ((s : BaselineSnapshot)
            → read_snapshot c times (entries c times m.store.disk) latest_name ≢ decoded s)
        → IsRecovered origin excluded n m t
    from_start :
        (s : BaselineSnapshot)
        → IsThere retry u f c times (entries c times n.store.disk) s
        → t.patterns ≡ put_all [] s.patterns
        → IsRecovered origin excluded n m t
    from_run :
        (newer older : List Input)
        → newer ++ older ≡ m.handled
        → ((k : GoString)
            → Dict.get t.patterns k
              ≡ Dict.get (track_all origin (sightings excluded older)).patterns k)
        → IsRecovered origin excluded n m t

  loaded-IsRecovered :
      (origin : BehaviorTracker) (excluded : List GoString) (n m : Node f c.Bytes) (later : ℕ)
      (s : BaselineSnapshot)
      → IsMap origin.patterns
      → Known retry u f c times (entries c times n.store.disk) origin excluded m.handled s
      → IsRecovered origin excluded n m (with_snapshot c times (new_tracker later) s)
  unfolding load_patterns
  loaded-IsRecovered origin excluded n m later s keys (inl there) = from_start s there refl
  loaded-IsRecovered origin excluded n m later s keys (inr e) =
      let history = sightings excluded e.older in
      let fresh : IsMap s.patterns = rw e.patterns (track_all-IsMap origin history keys) in
      from_run e.newer e.older e.split (λ k.
        get-load_patterns later s.patterns s.total_events s.last_new_pattern s.learning_start k
          fresh
        ∙ ap (λ p. Dict.get p k) e.patterns)

module _ (retry : Retry) (u : ℕ → ℕ) (f : Float64) (c : Codec) (times : TimeText) (yaml : Yaml)
    (two_decimals : f.Num → GoString) (marshal : BaselineReport f → Option c.Bytes)
    (no_engine : Risk.Engine f) where
  -- A crash at any point. Take any start that learns and any run of it to any point, however the writes of its snapshots ended. A start on the directory as it stands there
  -- restores no damaged baseline: it has none, and then the latest file gives no snapshot; or it has a snapshot
  -- that the run began with; or it has for every key the pattern that the run's tracker had after the oldest, in
  -- the order of their handling, of the events that the run has handled.
  pub crash_recovers :
      IsCodec c
      → IsTimeText times
      → (w v : World f c.Bytes yaml.Doc) (n m : Node f c.Bytes)
      → assembled retry u f c times yaml two_decimals marshal no_engine w ≡ running n
      → is_learning n.agent.mode ≡ true
      → Reach retry u f c times n m
      → v.disk ≡ m.store.disk
      → IsRecovered retry u f c times
          (restored retry u f c times yaml two_decimals marshal no_engine w).1
          (config_of w).exclude_namespaces
          n
          m
          (restored retry u f c times yaml two_decimals marshal no_engine v).1
  unfolding restored
  crash_recovers laws text_laws w v n m starts learns run crash =
      let origin = (restored retry u f c times yaml two_decimals marshal no_engine w).1 in
      let excluded = (config_of w).exclude_namespaces in
      let store = new_store retry u f c times yaml two_decimals marshal no_engine v in
      let P = Known retry u f c times (entries c times n.store.disk) origin excluded m.handled in
      let same : store.disk ≡ m.store.disk =
        new_store-disk retry u f c times yaml two_decimals marshal no_engine v ∙ crash in
      let all : AllReadable c times P (entries c times store.disk) =
        subst (λ d. AllReadable c times P (entries c times d)) (sym same)
          (Reach-AllReadable retry u f c times laws text_laws (entries c times n.store.disk) origin
            excluded refl
            (started-IsLearning retry u f c times yaml two_decimals marshal no_engine w n starts
              learns)
            run) in
      elim (load_latest_snapshot-found c times P v.io store (new_tracker v.now) v.loaded_at v.nano
        all) [
          | inl (none_found, unread) ↦
              from_nothing (ap (λ (t : BehaviorTracker). t.patterns) none_found) (λ s e.
                unread s (ap (λ d. read_snapshot c times (entries c times d) latest_name) same ∙ e))
          | inr (s, known, loaded) ↦
              subst (IsRecovered retry u f c times origin excluded n m) (sym loaded) (
                loaded-IsRecovered retry u f c times origin excluded n m v.now s
                  (restored-IsMap retry u f c times yaml two_decimals marshal no_engine w) known)
        ]
