-- ===== src/Agent/Shutdown/Crash.antt =====
-- What stands in the snapshot directory at any point of a run (cmd/ztre-agent/main.go).
use ztre.Base.{ℕ, GoString, true, some, List, [], ◌∷◌, ◌++◌, ◌≡◌, refl, sym, ap, ◌∙◌, inl, inr, ◌⊎◌}
use ztre.Base.Dict.{Dict}
use ztre.Float64.{Float64}
use ztre.Files.{decoded}
use ztre.Containment.{Retry}
use ztre.Collector.Event.{SecurityEvent}
use ztre.Collector.Buffer.{EventBuffer, Pushed, accepted, refused, panicked, push}
use ztre.Discovery.Snapshots
use ztre.Discovery.Snapshots.{TimeText}
use ztre.Discovery.Tracker.{BehaviorTracker}
use ztre.Discovery.Tracker.Counts.{track_all}
use ztre.Discovery.Baseline.{BaselineSnapshot, Codec, entries}
use ztre.Discovery.Baseline.Loading.{read_snapshot}
use ztre.Discovery.Baseline.Restoring.{IsCodec}
use ztre.Discovery.Baseline.Readable.{
  IsTimeText, is_read, AllReadable, save_snapshot-AllReadable, tick-AllReadable,
}
use ztre.Agent.{Input}
use ztre.Agent.Shutdown.{
  Node, pushed, save, Step, pushes, ticks, saves, handles, Reach, here, next, input_of,
}
use ztre.Agent.Shutdown.Learned.{sightings, IsLearning, Reach-IsLearning}

-- The snapshot is of what the tracker was after the oldest of the handled events.
pub record IsEarlier (origin : BehaviorTracker) (excluded : List GoString) (handled : List Input)
    (snap : BaselineSnapshot) : Type 0 where
  pub newer : List Input
  pub older : List Input
  pub split : newer ++ older ≡ handled
  pub patterns : snap.patterns ≡ (track_all origin (sightings excluded older)).patterns

later :
    (origin : BehaviorTracker) (excluded : List GoString) (handled : List Input) (i : Input)
    (snap : BaselineSnapshot)
    → IsEarlier origin excluded handled snap
    → IsEarlier origin excluded (i ∷ handled) snap
later origin excluded handled i snap h = record {
  newer = i ∷ h.newer;
  older = h.older;
  split = ap (λ xs. i ∷ xs) h.split;
  patterns = h.patterns;
}

module _ (retry : Retry) (u : ℕ → ℕ) (f : Float64) (c : Codec) (times : TimeText) where
  -- A snapshot that a load can find in the directory.
  pub record IsThere (dir : Dict (Snapshots.Node c.Bytes)) (snap : BaselineSnapshot) : Type 0 where
    pub name : GoString
    pub found : is_read times name ≡ true
    pub reads : read_snapshot c times dir name ≡ decoded snap

  -- A snapshot of the start's directory, or one of this run's tracker.
  abbrev pub Known :
      Dict (Snapshots.Node c.Bytes)
      → BehaviorTracker
      → List GoString
      → List Input
      → BaselineSnapshot
      → Type 0
  Known dir origin excluded handled snap = IsThere dir snap ⊎ IsEarlier origin excluded handled snap

  module _ (laws : IsCodec c) (text_laws : IsTimeText times) (dir : Dict (Snapshots.Node c.Bytes))
      (origin : BehaviorTracker) (excluded : List GoString) where
    abbrev IsKept : Node f c.Bytes → Type 0
    IsKept n =
        AllReadable c times (Known dir origin excluded n.handled) (entries c times n.store.disk)

    Known-cons :
        (handled : List Input) (i : Input) (snap : BaselineSnapshot)
        → Known dir origin excluded handled snap
        → Known dir origin excluded (i ∷ handled) snap
    Known-cons handled i snap (inl there) = inl there
    Known-cons handled i snap (inr e) = inr (later origin excluded handled i snap e)

    -- A snapshot that is taken now.
    Known-present :
        (n : Node f c.Bytes) (snap : BaselineSnapshot)
        → IsLearning origin excluded n
        → snap.patterns ≡ n.agent.tracker.patterns
        → Known dir origin excluded n.handled snap
    Known-present n snap h same = inr (record {
      newer = [];
      older = n.handled;
      split = refl;
      patterns = same ∙ ap (λ (t : BehaviorTracker). t.patterns) h.tracked;
    })

    pushed-IsKept :
        (n : Node f c.Bytes) (e : SecurityEvent) (r : EventBuffer × Pushed)
        → IsKept n
        → IsKept (pushed retry u f c times n e r)
    pushed-IsKept n e (b, accepted) h = h
    pushed-IsKept n e (b, refused) h = h
    pushed-IsKept n e (b, panicked) h = h

    Step-IsKept :
        {n m : Node f c.Bytes}
        → Step retry u f c times n m
        → IsLearning origin excluded n
        → IsKept n
        → IsKept m
    unfolding save
    Step-IsKept {n} (pushes e run) l h = pushed-IsKept n e (push n.buffer (some e)) h
    Step-IsKept {n} (ticks io now nano nano' run) l h =
        tick-AllReadable c times laws text_laws (Known dir origin excluded n.handled) io n.store
          n.agent.tracker now nano nano' (Known-present n _ l refl) h
    Step-IsKept {n} (handles ws vs e r at) l h =
        λ name snap read e'. Known-cons n.handled (input_of e r) snap (h name snap read e')
    Step-IsKept {n} (saves io now nano nano' at all) l h = rw l.mode (
        save_snapshot-AllReadable c times laws text_laws (Known dir origin excluded n.handled) io
          n.store n.agent.tracker now nano nano' (Known-present n _ l refl) h)
    Step-IsKept {n} _ l h = h

    -- At any point of a run of an agent that learns, however its writes ended: every snapshot that a load can find
    -- is one that the start could find, or one of the tracker after some first part of the handled events.
    pub Reach-AllReadable :
        {n m : Node f c.Bytes}
        → entries c times n.store.disk ≡ dir
        → IsLearning origin excluded n
        → Reach retry u f c times n m
        → AllReadable c times (Known dir origin excluded m.handled) (entries c times m.store.disk)
    Reach-AllReadable start l here = λ name snap read e. inl (record {
      name = name;
      found = read;
      reads = ap (λ d. read_snapshot c times d name) (sym start) ∙ e;
    })
    Reach-AllReadable start l (next r st) =
        Step-IsKept st (Reach-IsLearning retry u f c times origin excluded l r)
          (Reach-AllReadable start l r)
