-- ===== src/Agent/Shutdown/Drain.antt =====
-- `wg.Wait()` returns (cmd/ztre-agent/main.go): once the buffer is closed, the workers come to an end in
-- whatever order they are scheduled.
use ztre.Base.{
  ℕ, suc, ◌+◌, ◌*◌, ◌≤◌, ◌<◌, true, List, [], ◌∷◌, ◌++◌, length, ◌≡◌, refl, ap, ◌∙◌, ◌⊎◌, inl, inr,
  arith,
}
use ztre.Float64.{Float64}
use ztre.Containment.{Retry}
use ztre.Collector.Event.{SecurityEvent}
use ztre.Collector.Buffer.{EventBuffer, event, ended, take_first, receive}
use ztre.Discovery.Snapshots.{TimeText}
use ztre.Discovery.Baseline.{Codec}
use ztre.Agent.Shutdown.{
  Worker, waiting, busy, finished, all_finished, Readings, input_of, Node, taking, handling, Step,
  takes, handles, finishes,
}

-- The steps that a worker has before it.
abbrev pub weight : List Worker → ℕ
weight [] = 0
weight (waiting ∷ ws) = 1 + weight ws
weight (busy e ∷ ws) = 2 + weight ws
weight (finished ∷ ws) = weight ws

weight-append : (ws vs : List Worker) → weight (ws ++ vs) ≡ weight ws + weight vs
weight-append [] vs = omega arith
weight-append (waiting ∷ ws) vs = omega (arith, weight-append ws vs)
weight-append (busy e ∷ ws) vs = omega (arith, weight-append ws vs)
weight-append (finished ∷ ws) vs = weight-append ws vs

-- A bound on the steps that are left.
abbrev pub left : {f : Float64} {Bytes : Type 0} → Node f Bytes → ℕ
left n = 2 * length n.buffer.queue + weight n.workers

-- Where a worker that has not ended stands.
data Unfinished (ws : List Worker) : Type 0 where
  none_is : all_finished ws ≡ true → Unfinished ws
  waits_at : (before after : List Worker) → ws ≡ before ++ (waiting ∷ after) → Unfinished ws
  works_at :
      (before : List Worker) (e : SecurityEvent) (after : List Worker)
      → ws ≡ before ++ (busy e ∷ after)
      → Unfinished ws

behind_finished : (ws : List Worker) → Unfinished ws → Unfinished (finished ∷ ws)
behind_finished ws (none_is all) = none_is all
behind_finished ws (waits_at before after at) =
    waits_at (finished ∷ before) after (ap (λ vs. finished ∷ vs) at)
behind_finished ws (works_at before e after at) =
    works_at (finished ∷ before) e after (ap (λ vs. finished ∷ vs) at)

find-Unfinished : (ws : List Worker) → Unfinished ws
find-Unfinished [] = none_is refl
find-Unfinished (waiting ∷ ws) = waits_at [] ws refl
find-Unfinished (busy e ∷ ws) = works_at [] e ws refl
find-Unfinished (finished ∷ ws) = behind_finished ws (find-Unfinished ws)

-- A receive from a closed channel does not wait.
closed_answers :
    (b : EventBuffer) (queue : List SecurityEvent)
    → b.channel_closed ≡ true
    → ((e : SecurityEvent) × ((take_first b queue).1 ≡ event e)) ⊎ ((take_first b queue).1 ≡ ended)
closed_answers b [] shut = inr (rw shut refl)
closed_answers b (e ∷ rest) shut = inl (e, refl)

taken_shorter :
    (b : EventBuffer) (queue : List SecurityEvent) (e : SecurityEvent)
    → (take_first b queue).1 ≡ event e
    → (b.queue ≡ queue)
    → (suc (length (take_first b queue).0.queue) ≡ length b.queue)
      × ((take_first b queue).0.channel_closed ≡ b.channel_closed)
taken_shorter b [] e got at = ground (arith, got)
taken_shorter b (x ∷ rest) e got at = rw at (refl, refl)

module _ (retry : Retry) (u : ℕ → ℕ) (f : Float64) (c : Codec) (times : TimeText) where
  -- A step of a worker: it receives an event, handles it, or ends.
  pub data Work (n : Node f c.Bytes) : Node f c.Bytes → Type 0 where
    receives :
        (ws vs : List Worker) (e : SecurityEvent)
        → n.workers ≡ ws ++ (waiting ∷ vs)
        → (receive n.buffer).1 ≡ event e
        → Work n (taking retry u f c times n ws e vs)
    completes :
        (ws vs : List Worker) (e : SecurityEvent) (r : Readings)
        → n.workers ≡ ws ++ (busy e ∷ vs)
        → Work n (handling retry u f c times n ws (input_of e r) vs)
    ends :
        (ws vs : List Worker)
        → n.workers ≡ ws ++ (waiting ∷ vs)
        → (receive n.buffer).1 ≡ ended
        → Work n (record n { workers = ws ++ (finished ∷ vs) })

  pub Work-Step : {n m : Node f c.Bytes} → Work n m → Step retry u f c times n m
  Work-Step (receives ws vs e at got) = takes ws vs e at got
  Work-Step (completes ws vs e r at) = handles ws vs e r at
  Work-Step (ends ws vs at got) = finishes ws vs at got

  -- A run of so many steps of workers.
  pub data Works (n : Node f c.Bytes) : ℕ → Node f c.Bytes → Type 0 where
    stays : Works n 0 n
    then_works : {j : ℕ} {m k : Node f c.Bytes} → Works n j m → Work m k → Works n (suc j) k

  Work-lessens :
      {n m : Node f c.Bytes}
      → Work n m
      → (left m < left n) × (m.buffer.channel_closed ≡ n.buffer.channel_closed)
  unfolding receive
  Work-lessens {n} (receives ws vs e at got) =
      let (shorter, same) = taken_shorter n.buffer n.buffer.queue e got refl in
      (
        rw at (
            omega
              (arith, shorter, weight-append ws (waiting ∷ vs), weight-append ws (busy e ∷ vs))),
        same,
      )
  Work-lessens {n} (completes ws vs e r at) =
      (rw at (omega (arith, weight-append ws (waiting ∷ vs), weight-append ws (busy e ∷ vs))), refl)
  Work-lessens {n} (ends ws vs at got) = (
    rw at (omega (arith, weight-append ws (waiting ∷ vs), weight-append ws (finished ∷ vs))),
    refl,
  )

  Works-lessens :
      {n : Node f c.Bytes} {j : ℕ} {m : Node f c.Bytes}
      → Works n j m
      → (j + left m ≤ left n) × (m.buffer.channel_closed ≡ n.buffer.channel_closed)
  Works-lessens stays = (omega arith, refl)
  Works-lessens (then_works run step) =
      let (most, still) = Works-lessens run in
      let (less, same) = Work-lessens step in (omega (arith, most, less), same ∙ still)

  progress :
      (n : Node f c.Bytes) (r : Readings)
      → n.buffer.channel_closed ≡ true
      → Unfinished n.workers
      → (all_finished n.workers ≡ true) ⊎ ((m : Node f c.Bytes) × Work n m)
  unfolding receive
  progress n r shut (none_is all) = inl all
  progress n r shut (works_at before e after at) = inr (_, completes before after e r at)
  progress n r shut (waits_at before after at) =
      elim (closed_answers n.buffer n.buffer.queue shut) [
        | inl (e, got) ↦ inr (_, receives before after e at got)
        | inr got ↦ inr (_, ends before after at got)
      ]

  -- After the close of the buffer the wait for the workers comes to an end under every schedule: a run of
  -- workers' steps is no longer than twice the queued events, and two steps for a worker with an event and
  -- one for a waiting worker; and a run that cannot go on has ended every worker.
  pub drain_ends :
      {j : ℕ} (n m : Node f c.Bytes) (r : Readings)
      → n.buffer.channel_closed ≡ true
      → Works n j m
      → (j ≤ left n) × ((all_finished m.workers ≡ true) ⊎ ((k : Node f c.Bytes) × Work m k))
  drain_ends n m r shut run =
      let (most, still) = Works-lessens run in
      (omega (arith, most), progress m r (still ∙ shut) (find-Unfinished m.workers))
