-- ===== src/Agent/Assembly/Refinement.antt =====
-- A run of the whole node, seen from the agent, is a sequence of its moves (cmd/ztre-agent/main.go).
use ztre.Base.{ℕ, some, List, [], ◌∷◌, ◌++◌, ◌≡◌, refl, ap, ◌∙◌, sym, ◌⊎◌, inl, inr}
use ztre.Float64.{Float64}
use ztre.Containment.{Retry}
use ztre.Collector.Event.{SecurityEvent}
use ztre.Collector.Buffer.{EventBuffer, Pushed, accepted, refused, panicked, push}
use ztre.Discovery.Snapshots.{TimeText}
use ztre.Discovery.Baseline.{Codec}
use ztre.Agent.{Agent}
use ztre.Agent.Reload.Interleaving.{Move, handle, move, moves}
use ztre.Agent.Shutdown.{
  Node, pushed, input_of, save, Step, pushes, reloads, handles, Reach, here, next,
}

module _ (retry : Retry) (u : ℕ → ℕ) (f : Float64) where
  moves-append :
      (a : Agent f) (xs : List Move) (m : Move)
      → moves retry u f a (xs ++ (m ∷ [])) ≡ move retry u f (moves retry u f a xs) m
  unfolding moves
  moves-append a [] m = refl
  moves-append a (x ∷ xs) m = moves-append (move retry u f a x) xs m

  module _ (c : Codec) (times : TimeText) where
    pushed-agent :
        (n : Node f c.Bytes) (e : SecurityEvent) (r : EventBuffer × Pushed)
        → (pushed retry u f c times n e r).agent ≡ n.agent
    pushed-agent n e (b, accepted) = refl
    pushed-agent n e (b, refused) = refl
    pushed-agent n e (b, panicked) = refl

    Step-move :
        {n m : Node f c.Bytes}
        → Step retry u f c times n m
        → (m.agent ≡ n.agent) ⊎ ((x : Move) × (m.agent ≡ move retry u f n.agent x))
    unfolding save
    Step-move {n} (pushes e run) = inl (pushed-agent n e (push n.buffer (some e)))
    Step-move (reloads x real) = inr (x, refl)
    Step-move (handles ws vs e r at) = inr (handle (input_of e r), refl)
    Step-move _ = inl refl

    -- Every run of the node (client, buffer, workers, snapshots, SIGHUPs and shutdown in any interleaving) is, for
    -- the agent, some sequence of handled events and reload steps.
    pub Reach-moves :
        {n m : Node f c.Bytes}
        → Reach retry u f c times n m
        → (xs : List Move) × (m.agent ≡ moves retry u f n.agent xs)
    unfolding moves
    Reach-moves here = ([], refl)
    Reach-moves {n} (next r st) =
        let (xs, e) = Reach-moves r in
        elim (Step-move st) [
          | inl same ↦ (xs, same ∙ e)
          | inr (x, moved) ↦ (
            xs ++ (x ∷ []),
            moved ∙ (ap (λ a. move retry u f a x) e ∙ sym (moves-append n.agent xs x)),
          )
        ]
