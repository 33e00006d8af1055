-- ===== src/Agent/Shutdown/Learned.antt =====
-- What the tracker of a learning agent has tracked, over any run (cmd/ztre-agent/main.go).
use ztre.Base.{
  ℕ, GoString, Bool, true, not, ◌&&◌, Option, none, some, List, [], ◌∷◌, ◌≡◌, refl, ap, ◌∙◌, arith,
  length, if◌then◌else◌, if_both, Bool-cases, inl, inr,
}
use ztre.Float64.{Float64}
use ztre.Containment.{Retry}
use ztre.Config.{is_namespace_excluded, AgentConfig, load_agent_config}
use ztre.Collector.Event.{SecurityEvent}
use ztre.Collector.Buffer.{EventBuffer, Pushed, accepted, refused, panicked, push}
use ztre.Discovery.Snapshots.{TimeText}
use ztre.Discovery.Tracker.{BehaviorTracker, track}
use ztre.Discovery.Tracker.Counts.{Sighting, track_all, sees, times}
use ztre.Discovery.Baseline.{Codec}
use ztre.Agent.{
  AgentMode, discovery, shadow, enforcement, Agent, Input, observe, rehearse, is_classified,
  is_routine, class_of, in_mode, process,
}
use ztre.Agent.Reload.{has_bounds, adopt, reload_thresholds, reload_whitelist, reload_overrides}
use ztre.Agent.Reload.Interleaving.{
  Move, handle, adopt_config, load_whitelist, merge_overrides, move,
}
use ztre.Agent.Shutdown.{
  is_learning, is_reload, Node, pushed, save, Step, pushes, reloads, handles, Reach, here, next,
  input_of,
}
use ztre.Agent.Shutdown.Workers.{tally}

-- The sightings of the handled events whose namespace is not excluded.
abbrev pub sightings : List GoString → List Input → List Sighting
sightings excluded [] = []
sightings excluded (i ∷ earlier) =
    let rest = sightings excluded earlier in
    if is_namespace_excluded excluded i.event.namespace
    then rest
    else record { event = i.event; clock = i.clock; wall = i.wall } ∷ rest

-- An event that adds to the count of the lineage with the key `k`.
abbrev pub is_learned : List GoString → GoString → SecurityEvent → Bool
is_learned excluded k e =
    not (is_namespace_excluded excluded e.namespace)
    && sees k (record { event = e; clock = 0; wall = 0 })

pub length-times :
    (excluded : List GoString) (k : GoString) (handled : List Input)
    → length (times k (sightings excluded handled))
      ≡ tally (λ i. is_learned excluded k i.event) handled
length-times excluded k [] = refl
length-times excluded k (i ∷ earlier) = ground (arith, length-times excluded k earlier)

-- The agent learns, in its mode and with its list of namespaces, and its tracker has tracked what was
-- handled.
pub record IsLearning {f : Float64} {Bytes : Type 0} (origin : BehaviorTracker)
    (excluded : List GoString) (n : Node f Bytes) : Type 0 where
  pub mode : is_learning n.agent.mode ≡ true
  pub same : n.agent.exclude_namespaces ≡ excluded
  pub tracked : n.agent.tracker ≡ track_all origin (sightings excluded n.handled)

-- What a SIGHUP leaves alone.
record Keeps {f : Float64} (a b : Agent f) : Type 0 where
  mode : b.mode ≡ a.mode
  same : b.exclude_namespaces ≡ a.exclude_namespaces
  tracker : b.tracker ≡ a.tracker

module _ (retry : Retry) (u : ℕ → ℕ) (f : Float64) where
  -- An agent that has tracked the event and kept the rest.
  record Observes (a : Agent f) (i : Input) (b : Agent f) : Type 0 where
    mode : b.mode ≡ a.mode
    same : b.exclude_namespaces ≡ a.exclude_namespaces
    tracked : b.tracker ≡ track a.tracker (some i.event) i.clock i.wall

  observe-Observes : (a : Agent f) (i : Input) → Observes a i (observe retry u f a i)
  unfolding observe
  observe-Observes a i = record { mode = refl; same = refl; tracked = refl }

  rehearse-Observes :
      (a b : Agent f) (i : Input) → Observes a i b → Observes a i (rehearse retry u f b i)
  unfolding rehearse
  rehearse-Observes a b i h = if_both (Observes a i) (not (is_classified i.event.event_type)) h (
      if_both (Observes a i) (is_routine (class_of retry u f b i) i.event.event_type)
        (record { mode = h.mode; same = h.same; tracked = h.tracked })
        (record { mode = h.mode; same = h.same; tracked = h.tracked }))

  in_mode-Observes :
      (m : AgentMode) (a : Agent f) (i : Input)
      → is_learning m ≡ true
      → Observes a i (in_mode retry u f m a i)
  in_mode-Observes discovery a i h = observe-Observes a i
  in_mode-Observes shadow a i h = rehearse-Observes a _ i (observe-Observes a i)
  in_mode-Observes enforcement a i h = cc

  adopt-Keeps : (a : Agent f) (o : Option AgentConfig) → Keeps a (adopt f a o)
  adopt-Keeps a none = record { mode = refl; same = refl; tracker = refl }
  adopt-Keeps a (some cfg) =
      if_both (Keeps a) (has_bounds cfg) (record { mode = refl; same = refl; tracker = refl })
        (record { mode = refl; same = refl; tracker = refl })

  reload-Keeps : (a : Agent f) (m : Move) → is_reload m ≡ true → Keeps a (move retry u f a m)
  unfolding reload_thresholds reload_whitelist reload_overrides
  reload-Keeps a (handle i) h = cc
  reload-Keeps a (adopt_config file) h = adopt-Keeps a (load_agent_config file)
  reload-Keeps a (load_whitelist file) h = record { mode = refl; same = refl; tracker = refl }
  reload-Keeps a (merge_overrides file) h = record { mode = refl; same = refl; tracker = refl }

  module _ (c : Codec) (times : TimeText) (origin : BehaviorTracker)
      (excluded : List GoString) where
    pushed-IsLearning :
        (n : Node f c.Bytes) (e : SecurityEvent) (r : EventBuffer × Pushed)
        → IsLearning origin excluded n
        → IsLearning origin excluded (pushed retry u f c times n e r)
    pushed-IsLearning n e (b, accepted) h = record {
      mode = h.mode;
      same = h.same;
      tracked = h.tracked;
    }
    pushed-IsLearning n e (b, refused) h = record {
      mode = h.mode;
      same = h.same;
      tracked = h.tracked;
    }
    pushed-IsLearning n e (b, panicked) h = record {
      mode = h.mode;
      same = h.same;
      tracked = h.tracked;
    }

    -- An event that is handled: the agent afterwards, and the sightings with the event.
    handled-IsLearning :
        (a : Agent f) (i : Input) (seen : List Sighting)
        → is_learning a.mode ≡ true
        → a.exclude_namespaces ≡ excluded
        → a.tracker ≡ track_all origin seen
        → let b = process retry u f a i in
          (is_learning b.mode ≡ true)
          × (b.exclude_namespaces ≡ excluded)
          × (b.tracker
              ≡ track_all origin (
                  if is_namespace_excluded excluded i.event.namespace
                  then seen
                  else record { event = i.event; clock = i.clock; wall = i.wall } ∷ seen))
    unfolding process track_all
    handled-IsLearning a i seen mode same tracked =
        let of_agent : is_namespace_excluded a.exclude_namespaces i.event.namespace
            ≡ is_namespace_excluded excluded i.event.namespace =
          ap (λ x. is_namespace_excluded x i.event.namespace) same in
        elim (Bool-cases (is_namespace_excluded excluded i.event.namespace)) [
          | inl out ↦ rw (of_agent ∙ out, out) (mode, same, tracked)
          | inr learned ↦
              let o = in_mode-Observes a.mode a i mode in
              rw (of_agent ∙ learned, learned)
                (
                  ap is_learning o.mode ∙ mode,
                  o.same ∙ same,
                  o.tracked ∙ ap (λ t. track t (some i.event) i.clock i.wall) tracked,
                )
        ]

    Step-IsLearning :
        {n m : Node f c.Bytes}
        → Step retry u f c times n m
        → IsLearning origin excluded n
        → IsLearning origin excluded m
    unfolding save
    Step-IsLearning {n} (pushes e run) h = pushed-IsLearning n e (push n.buffer (some e)) h
    Step-IsLearning {n} (reloads m real) h =
        let k = reload-Keeps n.agent m real in
        record {
          mode = ap is_learning k.mode ∙ h.mode;
          same = k.same ∙ h.same;
          tracked = k.tracker ∙ h.tracked;
        }
    Step-IsLearning {n} (handles ws vs e r at) h =
        let (mode, same, tracked) =
          handled-IsLearning n.agent (input_of e r) (sightings excluded n.handled) h.mode h.same
            h.tracked in
        record { mode = mode; same = same; tracked = tracked }
    Step-IsLearning {n} _ h = record { mode = h.mode; same = h.same; tracked = h.tracked }

    pub Reach-IsLearning :
        {n m : Node f c.Bytes}
        → IsLearning origin excluded n
        → Reach retry u f c times n m
        → IsLearning origin excluded m
    Reach-IsLearning h here = h
    Reach-IsLearning h (next r st) = Step-IsLearning st (Reach-IsLearning h r)
