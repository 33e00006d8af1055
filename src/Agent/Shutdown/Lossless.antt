-- ===== src/Agent/Shutdown/Lossless.antt =====
-- No event is lost on its way through the agent (cmd/ztre-agent/main.go): what the buffer accepted is
-- queued, in a worker's hand, or handled, and nothing is left when the workers have ended.
use ztre.Base.{
  ℕ, ◌+◌, Bool, true, some, List, [], ◌∷◌, ◌++◌, ◌≡◌, refl, arith, length, length-append, ◌<◌,
}
use ztre.Float64.{Float64}
use ztre.Containment.{Retry}
use ztre.Collector.Event.{SecurityEvent}
use ztre.Collector.Buffer.{EventBuffer, push, drop_event, event, ended, take_first, receive, close}
use ztre.Discovery.Snapshots.{TimeText}
use ztre.Discovery.Baseline.{Codec}
use ztre.Agent.Shutdown.Workers.{tally, in_hand, any_finished, any_of_all, all_idle, pool_sums}
use ztre.Agent.Shutdown.{
  Worker, waiting, busy, finished, closed, all_finished, Readings, input_of, Node, pushed, handling,
  save, Step, pushes, takes, handles, finishes, closes, Reach, here, next,
}

-- The accepted events that pass a test are as many as the handled ones, those in a worker's hand and
-- those queued; a worker ends only after the buffer is closed and empty.
pub record IsLossless {f : Float64} {Bytes : Type 0} (n : Node f Bytes) : Type 0 where
  pub kept :
      (q : SecurityEvent → Bool)
      → tally q n.taken
        ≡ tally (λ i. q i.event) n.handled + (tally q (in_hand n.workers) + tally q n.buffer.queue)
  pub drained : any_finished n.workers ≡ true → (n.buffer.queue ≡ []) × (n.buffer.is_closed ≡ true)
  pub flag : n.buffer.is_closed ≡ n.buffer.close_done
  pub channel : n.buffer.channel_closed ≡ n.buffer.close_done
  pub staffed : 0 < length n.workers

module _ (retry : Retry) (u : ℕ → ℕ) (f : Float64) (c : Codec) (times : TimeText) where
  pushed-IsLossless :
      (n : Node f c.Bytes) (e : SecurityEvent)
      → IsLossless n
      → IsLossless (pushed retry u f c times n e (push n.buffer (some e)))
  unfolding push drop_event
  pushed-IsLossless n e h = record {
    kept = λ q. grind (pool_sums, h.kept q);
    drained = λ d. ground (arith, h.drained);
    flag = ground (arith, h.flag);
    channel = ground (arith, h.channel);
    staffed = ground (arith, h.staffed);
  }

  -- A worker comes back from a receive.
  took :
      (n : Node f c.Bytes) (ws vs : List Worker) (e : SecurityEvent) (queue : List SecurityEvent)
      → n.workers ≡ ws ++ (waiting ∷ vs)
      → n.buffer.queue ≡ queue
      → (take_first n.buffer queue).1 ≡ event e
      → IsLossless n
      → IsLossless
          (record n { buffer = (take_first n.buffer queue).0; workers = ws ++ (busy e ∷ vs) })
  took n ws vs e [] at eq got h = ground (arith, got)
  took n ws vs e (x ∷ rest) at eq got h = record {
    kept = λ q.
        let k : tally q n.taken
            ≡ tally (λ i. q i.event) n.handled
              + (tally q (in_hand (ws ++ (waiting ∷ vs))) + tally q (x ∷ rest)) =
          rw (at, eq) at (h.kept q) in
        grind (pool_sums, k, got);
    drained = λ d.
        let old : any_finished n.workers ≡ true = rw at (grind (pool_sums, d)) in
        cc (rw eq at (h.drained old).0);
    flag = h.flag;
    channel = h.channel;
    staffed = omega (arith, length-append ws (busy e ∷ vs));
  }

  handling-IsLossless :
      (n : Node f c.Bytes) (ws vs : List Worker) (e : SecurityEvent) (r : Readings)
      → n.workers ≡ ws ++ (busy e ∷ vs)
      → IsLossless n
      → IsLossless (handling retry u f c times n ws (input_of e r) vs)
  handling-IsLossless n ws vs e r at h = record {
    kept = λ q.
        let k : tally q n.taken
            ≡ tally (λ i. q i.event) n.handled
              + (tally q (in_hand (ws ++ (busy e ∷ vs))) + tally q n.buffer.queue) =
          rw at at (h.kept q) in
        grind (pool_sums, k);
    drained = λ d. h.drained (rw at (grind (pool_sums, d)));
    flag = h.flag;
    channel = h.channel;
    staffed = omega (arith, length-append ws (waiting ∷ vs));
  }

  -- A worker's receive says that the channel has ended.
  ended_empty :
      (b : EventBuffer) (queue : List SecurityEvent)
      → b.queue ≡ queue
      → (take_first b queue).1 ≡ ended
      → (b.queue ≡ []) × (b.channel_closed ≡ true)
  ended_empty b [] eq got = (eq, ground (arith, got))
  ended_empty b (x ∷ rest) eq got = cc

  finishes-IsLossless :
      (n : Node f c.Bytes) (ws vs : List Worker)
      → n.workers ≡ ws ++ (waiting ∷ vs)
      → (receive n.buffer).1 ≡ ended
      → IsLossless n
      → IsLossless (record n { workers = ws ++ (finished ∷ vs) })
  unfolding receive
  finishes-IsLossless n ws vs at got h = record {
    kept = λ q.
        let k : tally q n.taken
            ≡ tally (λ i. q i.event) n.handled
              + (tally q (in_hand (ws ++ (waiting ∷ vs))) + tally q n.buffer.queue) =
          rw at at (h.kept q) in
        grind (pool_sums, k);
    drained = λ d.
        let (empty, shut) = ended_empty n.buffer n.buffer.queue refl got in
        (empty, ground (arith, shut, h.flag, h.channel));
    flag = h.flag;
    channel = h.channel;
    staffed = omega (arith, length-append ws (finished ∷ vs));
  }

  closes-IsLossless :
      (n : Node f c.Bytes)
      → IsLossless n
      → IsLossless (record n { stage = closed; buffer = (close n.buffer).0 })
  unfolding close
  closes-IsLossless n h = record {
    kept = λ q. ground (arith, h.kept q);
    drained = λ d. ground (arith, h.drained d);
    flag = ground (arith, h.flag);
    channel = ground (arith, h.channel);
    staffed = h.staffed;
  }

  Step-IsLossless :
      {n m : Node f c.Bytes} → Step retry u f c times n m → IsLossless n → IsLossless m
  unfolding receive save
  Step-IsLossless {n} (pushes e run) h = pushed-IsLossless n e h
  Step-IsLossless {n} (takes ws vs e at got) h = took n ws vs e n.buffer.queue at refl got h
  Step-IsLossless {n} (handles ws vs e r at) h = handling-IsLossless n ws vs e r at h
  Step-IsLossless {n} (finishes ws vs at got) h = finishes-IsLossless n ws vs at got h
  Step-IsLossless {n} (closes at client loop) h = closes-IsLossless n h
  Step-IsLossless {n} _ h = record {
    kept = h.kept;
    drained = h.drained;
    flag = h.flag;
    channel = h.channel;
    staffed = h.staffed;
  }

  -- However the client, the workers, the snapshot loop, SIGHUPs and the shutdown interleave: of the events
  -- that the buffer accepted, as many as pass any given test are handled, in a worker's hand or queued,
  -- and no worker ends before the buffer is closed and empty.
  pub Reach-IsLossless :
      {n m : Node f c.Bytes} → IsLossless n → Reach retry u f c times n m → IsLossless m
  Reach-IsLossless h here = h
  Reach-IsLossless h (next r st) = Step-IsLossless st (Reach-IsLossless h r)

-- When all workers have ended, every event that the buffer accepted is handled: for any test, as many of
-- the handled events pass it as of the accepted ones.
pub drained_all :
    {f : Float64} {Bytes : Type 0} (n : Node f Bytes) (q : SecurityEvent → Bool)
    → IsLossless n
    → all_finished n.workers ≡ true
    → tally q n.taken ≡ tally (λ i. q i.event) n.handled
drained_all n q h all =
    let (empty, shut) = h.drained (any_of_all n.workers h.staffed all) in
    let k : tally q n.taken ≡ tally (λ i. q i.event) n.handled + (tally q [] + tally q []) =
      rw (all_idle n.workers all, empty) at (h.kept q) in
    omega (arith, k)
