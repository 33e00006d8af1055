-- ===== src/Agent/Shutdown.antt =====
-- cmd/ztre-agent/main.go: the running agent and its shutdown. The client, the snapshot loop, the workers,
-- the SIGHUP handler and main interleave; a step is what one of them does between two waits.
pub mod Workers
pub mod Lossless
pub mod Learned
pub mod Restart
pub mod Crash
pub mod Drain
pub mod Reports
pub mod Places
mod Examples
use ztre.Base.{
  ℕ, zero, suc, Bool, true, false, not, ◌&&◌, ◌+◌, Option, none, some, List, [], ◌∷◌, ◌++◌,
  if◌then◌else◌, ◌≡◌,
}
use ztre.Float64.{Float64}
use ztre.Containment.{ApiError, Retry}
use ztre.Collector.Event.{SecurityEvent}
use ztre.Collector.Buffer.{
  EventBuffer, Pushed, accepted, refused, panicked, push, event, ended, receive, close,
}
use ztre.Discovery.Snapshots.{TimeText, Io}
use ztre.Discovery.Baseline.{Codec, BaselineStore, save_snapshot, tick}
use ztre.Agent.{AgentMode, discovery, shadow, enforcement, Agent, Input, process}
use ztre.Agent.Reload.Interleaving.{
  Move, handle, adopt_config, load_whitelist, merge_overrides, move,
}

-- A worker's loop: before a receive, with an event in hand, or after the end of the channel.
pub data Worker : Type 0 where
  waiting finished : Worker
  busy : SecurityEvent → Worker

-- Where main stands: at `<-sigChan`, after `streamCancel`, after `eventBuffer.Close`, after the
-- final snapshot.
pub data Stage : Type 0 where
  serving cancelled closed saved : Stage

-- `agentMode == discovery.ModeDiscovery || agentMode == discovery.ModeShadow`
abbrev pub is_learning : AgentMode → Bool
is_learning discovery = true
is_learning shadow = true
is_learning enforcement = false

abbrev pub all_finished : List Worker → Bool
all_finished [] = true
all_finished (finished ∷ ws) = all_finished ws
all_finished (waiting ∷ ws) = false
all_finished (busy e ∷ ws) = false

-- What the clock, and the API server where it patches, give to the handling of an event.
pub record Readings : Type 0 where
  pub clock : ℕ
  pub wall : ℕ
  pub now : ℕ
  pub answers : ℕ → Option ApiError

abbrev pub input_of : SecurityEvent → Readings → Input
input_of e r = record {
  event = e;
  clock = r.clock;
  wall = r.wall;
  now = r.now;
  answers = r.answers;
}

-- The steps of a SIGHUP.
abbrev pub is_reload : Move → Bool
is_reload (handle i) = false
is_reload (adopt_config file) = true
is_reload (load_whitelist file) = true
is_reload (merge_overrides file) = true

-- `taken` are the events that the buffer has accepted and `handled` those that workers are done with, the
-- newest first.
pub record Node (f : Float64) (Bytes : Type 0) : Type 0 where
  pub agent : Agent f
  pub buffer : EventBuffer
  pub store : BaselineStore Bytes
  pub workers : List Worker
  pub client_running : Bool
  pub loop_running : Bool
  pub stage : Stage
  pub taken : List SecurityEvent
  pub handled : List Input

abbrev pub workers_of : ℕ → List Worker
workers_of zero = []
workers_of (suc n) = waiting ∷ workers_of n

module _ (retry : Retry) (u : ℕ → ℕ) (f : Float64) (c : Codec) (times : TimeText) where
  -- The goroutines that main starts; the snapshot loop runs outside enforcement mode.
  abbrev pub started : Agent f → EventBuffer → BaselineStore c.Bytes → ℕ → Node f c.Bytes
  started a b store worker_count = record {
    agent = a;
    buffer = b;
    store = store;
    workers = workers_of worker_count;
    client_running = true;
    loop_running = is_learning a.mode;
    stage = serving;
    taken = [];
    handled = [];
  }

  abbrev pub pushed : Node f c.Bytes → SecurityEvent → EventBuffer × Pushed → Node f c.Bytes
  pushed n e (b, accepted) = record n { buffer = b; taken = e ∷ n.taken }
  pushed n e (b, refused) = record n { buffer = b }
  pushed n e (b, panicked) = record n { buffer = b }

  abbrev pub taking : Node f c.Bytes → List Worker → SecurityEvent → List Worker → Node f c.Bytes
  taking n ws e vs = record n { buffer = (receive n.buffer).0; workers = ws ++ (busy e ∷ vs) }

  abbrev pub handling : Node f c.Bytes → List Worker → Input → List Worker → Node f c.Bytes
  handling n ws i vs = record n {
    agent = process retry u f n.agent i;
    workers = ws ++ (waiting ∷ vs);
    handled = i ∷ n.handled;
  }

  -- `SaveSnapshot` at the end, in the modes that learn.
  unfoldable pub save : Node f c.Bytes → Io c.Bytes → ℕ → ℕ → ℕ → Node f c.Bytes
  save n io now nano nano' =
      let store = (save_snapshot c times io n.store n.agent.tracker now nano nano').0 in
      record n { stage = saved; store = if is_learning n.agent.mode then store else n.store }

  pub data Step (n : Node f c.Bytes) : Node f c.Bytes → Type 0 where
    pushes :
        (e : SecurityEvent) → n.client_running ≡ true → Step n (pushed n e (push n.buffer (some e)))
    ticks :
        (io : Io c.Bytes) (now nano nano' : ℕ)
        → n.loop_running ≡ true
        → Step n (record n { store = tick c times io n.store n.agent.tracker now nano nano' })
    reloads :
        (m : Move) → is_reload m ≡ true → Step n (record n { agent = move retry u f n.agent m })
    takes :
        (ws vs : List Worker) (e : SecurityEvent)
        → n.workers ≡ ws ++ (waiting ∷ vs)
        → (receive n.buffer).1 ≡ event e
        → Step n (taking n ws e vs)
    handles :
        (ws vs : List Worker) (e : SecurityEvent) (r : Readings)
        → n.workers ≡ ws ++ (busy e ∷ vs)
        → Step n (handling n ws (input_of e r) vs)
    finishes :
        (ws vs : List Worker)
        → n.workers ≡ ws ++ (waiting ∷ vs)
        → (receive n.buffer).1 ≡ ended
        → Step n (record n { workers = ws ++ (finished ∷ vs) })
    -- the signal, and `streamCancel`
    cancels : n.stage ≡ serving → Step n (record n { stage = cancelled })
    client_ends : n.client_running ≡ true → Step n (record n { client_running = false })
    loop_ends : n.stage ≡ cancelled → Step n (record n { loop_running = false })
    -- after `<-clientDone` and `storeWg.Wait`
    closes :
        n.stage ≡ cancelled
        → n.client_running ≡ false
        → n.loop_running ≡ false
        → Step n (record n { stage = closed; buffer = (close n.buffer).0 })
    -- after `wg.Wait`
    saves :
        (io : Io c.Bytes) (now nano nano' : ℕ)
        → n.stage ≡ closed
        → all_finished n.workers ≡ true
        → Step n (save n io now nano nano')

  pub data Reach (n : Node f c.Bytes) : Node f c.Bytes → Type 0 where
    here : Reach n n
    next : {m k : Node f c.Bytes} → Reach n m → Step m k → Reach n k
