-- ===== src/Agent/Assembly/Soundness.antt =====
-- What holds of every run of an agent from its start on (cmd/ztre-agent/main.go).
use ztre.Base.{
  ℕ, ℤ, pos, negsuc, pos_part, suc, zero, ◌≤ℤ◌, ◌<◌, GoString, Bool, true, false, Option, none,
  some, [], ◌≡◌, ◌≢◌, refl, ap, ◌∙◌, sym, arith, length, is_some, Bool-cases, inl, inr,
}
use ztre.Float64.{Float64}
use ztre.Containment.{Retry}
use ztre.Risk
use ztre.Risk.{new_engine}
use ztre.Collector.Buffer.{new_event_buffer}
use ztre.Decision.Thresholds.{IsOrdered}
use ztre.Discovery.Snapshots.{TimeText}
use ztre.Discovery.Baseline.{Codec}
use ztre.Discovery.Report.{BaselineReport}
use ztre.Discovery.WhitelistFile.{Yaml}
use ztre.Agent.{AgentMode, discovery, shadow, enforcement}
use ztre.Agent.Modes.{IsPassive}
use ztre.Agent.Exempt.{IsExempting}
use ztre.Agent.Reload.Interleaving.{moves-IsPassive, moves-IsExempting, moves-IsOrdered}
use ztre.Agent.Startup.Settled.{resolve-HasMode}
use ztre.Agent.Shutdown.{Node, workers_of, started, Reach}
use ztre.Agent.Shutdown.Lossless.{IsLossless, Reach-IsLossless}
use ztre.Agent.Shutdown.Workers.{workers_of_idle}
use ztre.Agent.Assembly.{
  World, Start, running, Engines, config_of, settings_of, engines, agent_with, launch, restored,
  assemble,
}
use ztre.Agent.Assembly.Refinement.{Reach-moves}

module _ (retry : Retry) (u : ℕ → ℕ) (f : Float64) (c : Codec) (times : TimeText) (yaml : Yaml)
    (two_decimals : f.Num → GoString) (marshal : BaselineReport f → Option c.Bytes)
    (no_engine : Risk.Engine f) where
  -- The node that a start with these engines runs.
  abbrev pub node_with : World f c.Bytes yaml.Doc → Engines f → Node f c.Bytes
  node_with w e =
      let (store, bt) = restored retry u f c times yaml two_decimals marshal no_engine w in
      started retry u f c times
        (agent_with retry u f c times yaml two_decimals marshal no_engine w bt e)
        (new_event_buffer (settings_of w).buffer_size) store (pos_part (settings_of w).worker_count)

  abbrev pub assembled : World f c.Bytes yaml.Doc → Start f c.Bytes
  assembled w = assemble retry u f c times yaml two_decimals marshal no_engine w

  launched :
      (w : World f c.Bytes yaml.Doc) (o : Option (Engines f)) (n : Node f c.Bytes)
      → launch retry u f c times yaml two_decimals marshal no_engine w
          (restored retry u f c times yaml two_decimals marshal no_engine w)
          o
        ≡ running n
      → (e : Engines f) × (o ≡ some e) × (n ≡ node_with w e)
  launched w none n h = cc
  launched w (some e) n h = (e, refl, cc)

  pub ran :
      (w : World f c.Bytes yaml.Doc) (n : Node f c.Bytes)
      → assembled w ≡ running n
      → (e : Engines f) × (engines retry u f c times yaml two_decimals marshal no_engine w
            (settings_of w).mode
          ≡ some e)
        × (n ≡ node_with w e)
  unfolding assemble
  ran w n h = elim (Bool-cases w.gen_report) [
    | inl report ↦ cc (rw report at h)
    | inr plain ↦ launched w _ n (rw plain at h)
  ]

  length-workers_of : (k : ℕ) → length (workers_of k) ≡ k
  length-workers_of zero = refl
  length-workers_of (suc k) = ap suc (length-workers_of k)

  pos_part_positive : (z : ℤ) → pos 1 ≤ℤ z → 0 < pos_part z
  pos_part_positive z h = ground arith

  fresh_buffer :
      (z : ℤ)
      → ((new_event_buffer z).queue ≡ [])
        × ((new_event_buffer z).is_closed ≡ false)
        × ((new_event_buffer z).channel_closed ≡ false)
        × ((new_event_buffer z).close_done ≡ false)
  unfolding new_event_buffer
  fresh_buffer (pos zero) = (refl, refl, refl, refl)
  fresh_buffer (pos (suc n)) = (refl, refl, refl, refl)
  fresh_buffer (negsuc n) = (refl, refl, refl, refl)

  node_with-IsLossless : (w : World f c.Bytes yaml.Doc) (e : Engines f) → IsLossless (node_with w e)
  node_with-IsLossless w e =
      let (queue, closed, channel, done) = fresh_buffer (settings_of w).buffer_size in
      let k = pos_part (settings_of w).worker_count in
      record {
        kept = λ q. rw queue (omega (arith, (workers_of_idle q k).0));
        drained = λ d. cc (sym d ∙ (workers_of_idle (λ _. true) k).1);
        flag = closed ∙ sym done;
        channel = channel ∙ sym done;
        staffed = omega (
          arith,
          length-workers_of k,
          pos_part_positive (settings_of w).worker_count (resolve-HasMode w.flags w.config).0,
        );
      }

  -- A node that a start runs accounts for its events.
  pub assemble-IsLossless :
      (w : World f c.Bytes yaml.Doc) (n : Node f c.Bytes) → assembled w ≡ running n → IsLossless n
  assemble-IsLossless w n h = let (e, made, is) = ran w n h in rw is (node_with-IsLossless w e)

  -- The executor that a start makes.
  abbrev pub has_executor : AgentMode → Bool
  has_executor discovery = false
  has_executor shadow = false
  has_executor enforcement = true

  engines-executor :
      (w : World f c.Bytes yaml.Doc) (mode : AgentMode) (e : Engines f)
      → engines retry u f c times yaml two_decimals marshal no_engine w mode ≡ some e
      → is_some e.executor ≡ has_executor mode
  unfolding engines
  engines-executor w discovery e h = ground arith
  engines-executor w shadow e h = ground arith
  engines-executor w enforcement e h = ground arith

  -- What every run keeps from its start.
  pub record IsSafe (w : World f c.Bytes yaml.Doc) (n m : Node f c.Bytes) : Type 0 where
    -- Nothing was ever done to an excluded namespace.
    pub exempt : IsExempting f (config_of w).exclude_namespaces m.agent
    -- Outside enforcement mode nothing was done at all.
    pub passive : n.agent.mode ≢ enforcement → IsPassive n.agent m.agent
    pub ordered : IsOrdered n.agent.thresholds → IsOrdered m.agent.thresholds
    pub accounted : IsLossless m
    -- A client of the cluster exists in enforcement mode only.
    pub armed : is_some n.agent.executor ≡ has_executor n.agent.mode

  -- From any start that runs, over any run of the whole node: no alert and no quarantine ever touches a namespace
  -- of the control plane or of the configuration's list; an agent that did not start in enforcement mode alerts
  -- nobody and quarantines nothing; thresholds in order stay in order; every accepted event is accounted for; and
  -- a client of the cluster exists exactly in enforcement mode.
  pub assembled-IsSafe :
      (w : World f c.Bytes yaml.Doc) (n m : Node f c.Bytes)
      → assembled w ≡ running n
      → Reach retry u f c times n m
      → IsSafe w n m
  assembled-IsSafe w n m h run =
      let (e, made, is) = ran w n h in
      let (xs, same) = Reach-moves retry u f c times run in
      let start : IsExempting f (config_of w).exclude_namespaces n.agent =
        rw is (record { same = refl; spared = tt }) in
      record {
        exempt =
            rw same (moves-IsExempting retry u f (config_of w).exclude_namespaces n.agent xs start);
        passive = λ p. rw same (moves-IsPassive retry u f n.agent xs p);
        ordered = λ o. rw same (moves-IsOrdered retry u f n.agent xs o);
        armed = rw is (engines-executor w (settings_of w).mode e made);
        accounted = Reach-IsLossless retry u f c times (assemble-IsLossless w n h) run;
      }
