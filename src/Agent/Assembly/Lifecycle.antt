-- ===== src/Agent/Assembly/Lifecycle.antt =====
-- The agent over its runs, from the start of one process to the start of a later one (cmd/ztre-agent/main.go).
use ztre.Base.{
  ℕ, ◌+◌, ◌%◌, ◌^◌, pos, ltb_ℤ, GoString, true, false, Option, List, [], ◌∷◌, ◌≡◌, refl, ap, ◌∙◌,
  arith, if_both, All,
}
use mathlib.Core.Path.{subst, sym}
use ztre.Base.Dict
use ztre.Base.Dict.{Dict}
use ztre.Base.Dict.Keys.{IsMap}
use ztre.Float64.{Float64}
use ztre.Containment.{Retry}
use ztre.Risk
use ztre.Collector.Event.{SecurityEvent}
use ztre.Discovery.Snapshots.{TimeText, Io, written, latest_name}
use ztre.Discovery.Tracker.{ExecutionPattern, BehaviorTracker, new_tracker}
use ztre.Discovery.Tracker.Entries.{IsEntry, track_all-entries}
use ztre.Discovery.Tracker.Restored.{load_patterns-entries}
use ztre.Discovery.Tracker.Counts.{track_all}
use ztre.Discovery.Tracker.Totals.{count_in}
use ztre.Discovery.Baseline.{Codec, BaselineStore}
use ztre.Discovery.Baseline.Fresh.{load_latest_snapshot_of_disk, load_latest_snapshot-IsMap}
use ztre.Discovery.Baseline.Restoring.{IsCodec}
use ztre.Discovery.Report.{BaselineReport}
use ztre.Discovery.WhitelistFile.{Yaml}
use ztre.Agent.Shutdown.{Node, is_learning, all_finished, save, Reach}
use ztre.Agent.Shutdown.Workers.{tally}
use ztre.Agent.Shutdown.Learned.{is_learned, sightings, IsLearning, Reach-IsLearning}
use ztre.Agent.Shutdown.Restart.{restart_finds, restart_counts}
use ztre.Agent.Assembly.{World, running, config_of, new_store, restored}
use ztre.Agent.Assembly.Soundness.{assembled, ran, assemble-IsLossless}

-- What a run accepted, with the namespaces that it excluded.
pub record Past : Type 0 where
  pub excluded : List GoString
  pub taken : List SecurityEvent

-- The events of runs that add to the count of a lineage.
abbrev pub learned_in : GoString → List Past → ℕ
learned_in k [] = 0
learned_in k (p ∷ earlier) = learned_in k earlier + tally (is_learned p.excluded k) p.taken

module _ (retry : Retry) (u : ℕ → ℕ) (f : Float64) (c : Codec) (times : TimeText) (yaml : Yaml)
    (two_decimals : f.Num → GoString) (marshal : BaselineReport f → Option c.Bytes)
    (no_engine : Risk.Engine f) where
  -- The patterns that a start restores.
  abbrev pub baseline : World f c.Bytes yaml.Doc → Dict ExecutionPattern
  baseline w = (restored retry u f c times yaml two_decimals marshal no_engine w).1.patterns

  abbrev pub baseline_count : World f c.Bytes yaml.Doc → GoString → ℕ
  baseline_count w k = count_in (Dict.get (baseline w) k)

  -- A run that learns, from its start to the end of its last worker, with a final snapshot that is written.
  pub record Run (w : World f c.Bytes yaml.Doc) (m : Node f c.Bytes) (io : Io c.Bytes)
      : Type 0 where
    pub first : Node f c.Bytes
    pub starts : assembled retry u f c times yaml two_decimals marshal no_engine w ≡ running first
    pub learns : is_learning first.agent.mode ≡ true
    pub reaches : Reach retry u f c times first m
    pub ends : all_finished m.workers ≡ true
    pub made : io.mkdir_ok ≡ true
    pub wrote : io.write ≡ written
    pub latest : io.write_latest ≡ written

  -- Runs one after the other, each on the directory that the one before left.
  pub data Lives : World f c.Bytes yaml.Doc → World f c.Bytes yaml.Doc → List Past → Type 0 where
    born : {w : World f c.Bytes yaml.Doc} → Lives w w []
    lived :
        {w v v' : World f c.Bytes yaml.Doc} {earlier : List Past} (m : Node f c.Bytes)
        (io : Io c.Bytes) (at nano nano' : ℕ)
        → Lives w v earlier
        → Run v m io
        → v'.disk ≡ (save retry u f c times m io at nano nano').store.disk
        → Lives w v'
            (record { excluded = (config_of v).exclude_namespaces; taken = m.taken } ∷ earlier)

  pub new_store-disk :
      (w : World f c.Bytes yaml.Doc)
      → (new_store retry u f c times yaml two_decimals marshal no_engine w).disk ≡ w.disk
  new_store-disk w =
      if_both (λ (bs : BaselineStore c.Bytes). bs.disk ≡ w.disk)
        (ltb_ℤ (pos 0) (config_of w).max_snapshots) refl refl

  pub restored-IsMap : (w : World f c.Bytes yaml.Doc) → IsMap (baseline w)
  unfolding restored
  restored-IsMap w =
      load_latest_snapshot-IsMap c times w.io
        (new_store retry u f c times yaml two_decimals marshal no_engine w) (new_tracker w.now)
        w.loaded_at w.nano tt

  pub started-IsLearning :
      (w : World f c.Bytes yaml.Doc) (n : Node f c.Bytes)
      → assembled retry u f c times yaml two_decimals marshal no_engine w ≡ running n
      → is_learning n.agent.mode ≡ true
      → IsLearning
          (restored retry u f c times yaml two_decimals marshal no_engine w).1
          (config_of w).exclude_namespaces
          n
  unfolding track_all
  started-IsLearning w n h learning =
      let (e, made, is) = ran retry u f c times yaml two_decimals marshal no_engine w n h in
      record { mode = learning; same = rw is refl; tracked = rw is refl }

  restored-entries :
      IsCodec c
      → (w v : World f c.Bytes yaml.Doc) (m : Node f c.Bytes) (io : Io c.Bytes) (at nano nano' : ℕ)
      → times.parses latest_name ≡ false
      → Run w m io
      → v.disk ≡ (save retry u f c times m io at nano nano').store.disk
      → All IsEntry (baseline w)
      → All IsEntry (baseline v)
  unfolding restored
  restored-entries laws w v m io at nano nano' other r left entries =
      let store = new_store retry u f c times yaml two_decimals marshal no_engine v in
      let bs = (save retry u f c times m io at nano nano').store in
      let learning =
        Reach-IsLearning retry u f c times
          (restored retry u f c times yaml two_decimals marshal no_engine w).1
          (config_of w).exclude_namespaces (started-IsLearning w r.first r.starts r.learns)
          r.reaches in
      let t = m.agent.tracker in
      let kept : All IsEntry t.patterns = rw learning.tracked (
        track_all-entries (restored retry u f c times yaml two_decimals marshal no_engine w).1
          (sightings (config_of w).exclude_namespaces m.handled) entries) in
      let finds =
        load_latest_snapshot_of_disk c times v.io store bs (new_tracker v.now) v.loaded_at v.now
          v.nano v.nano (new_store-disk v ∙ left)
        ∙ (restart_finds retry u f c times laws m io v.io at nano nano' v.now v.nano other r.made
            r.wrote r.latest learning.mode).0 in
      subst (λ (bt : BehaviorTracker). All IsEntry bt.patterns) (sym finds)
        (load_patterns-entries (new_tracker v.now) t.patterns t.total_events t.last_new_pattern
          t.started tt kept)

  -- Where the first start finds well-formed entries, so does every later one.
  pub Lives-entries :
      {w v : World f c.Bytes yaml.Doc} {runs : List Past}
      → IsCodec c
      → times.parses latest_name ≡ false
      → All IsEntry (baseline w)
      → Lives w v runs
      → All IsEntry (baseline v)
  Lives-entries laws other entries born = entries
  Lives-entries laws other entries (lived {w} {v} {v'} m io at nano nano' before r left) =
      restored-entries laws v v' m io at nano nano' other r left
        (Lives-entries laws other entries before)

  run_counts :
      IsCodec c
      → (w v : World f c.Bytes yaml.Doc) (m : Node f c.Bytes) (io : Io c.Bytes) (at nano nano' : ℕ)
        (k : GoString)
      → times.parses latest_name ≡ false
      → Run w m io
      → v.disk ≡ (save retry u f c times m io at nano nano').store.disk
      → baseline_count v k % 2 ^ 64
        ≡ (baseline_count w k + tally (is_learned (config_of w).exclude_namespaces k) m.taken)
          % 2 ^ 64
  unfolding restored
  run_counts laws w v m io at nano nano' k other r left =
      let store = new_store retry u f c times yaml two_decimals marshal no_engine v in
      let bs = (save retry u f c times m io at nano nano').store in
      ap (λ (bt : BehaviorTracker). count_in (Dict.get bt.patterns k) % 2 ^ 64)
        (load_latest_snapshot_of_disk c times v.io store bs (new_tracker v.now) v.loaded_at v.now
          v.nano v.nano (new_store-disk v ∙ left))
      ∙ (restart_counts retry u f c times laws
          (restored retry u f c times yaml two_decimals marshal no_engine w).1
          (config_of w).exclude_namespaces r.first m io v.io at nano nano' v.now v.nano k other
          r.made r.wrote r.latest (restored-IsMap w)
          (assemble-IsLossless retry u f c times yaml two_decimals marshal no_engine w r.first
            r.starts)
          (started-IsLearning w r.first r.starts r.learns) r.reaches r.ends).0

  -- Over any number of runs of the agent, each from the start of its process to the end of its last worker, on
  -- the directory that the run before left. If every run learns and the writes of its final snapshot work, the
  -- baseline that the next start restores counts for the key of every lineage what the first start restored plus
  -- the events of that lineage that the runs' buffers accepted outside the namespaces excluded at the time, modulo
  -- 2^64.
  pub Lives-count :
      {w v : World f c.Bytes yaml.Doc} {runs : List Past}
      → IsCodec c
      → (k : GoString) → times.parses latest_name ≡ false
      → Lives w v runs
      → baseline_count v k % 2 ^ 64 ≡ (baseline_count w k + learned_in k runs) % 2 ^ 64
  Lives-count laws k other born = omega arith
  Lives-count laws k other (lived {w} {v} {v'} m io at nano nano' before r left) =
      let one = run_counts laws v v' m io at nano nano' k other r left in
      omega (arith, one, Lives-count laws k other before)
