-- ===== src/Agent/Shutdown/Workers.antt =====
-- The pool of workers (cmd/ztre-agent/main.go): the events in their hands, and when all have ended.
use ztre.Base.{
  ℕ, zero, suc, ◌+◌, ◌<◌, Bool, true, false, ◌||◌, List, [], ◌∷◌, ◌++◌, if◌then◌else◌, ◌≡◌, refl,
  arith, length,
}
use ztre.Collector.Event.{SecurityEvent}
use ztre.Agent.Shutdown.{Worker, waiting, busy, finished, all_finished, workers_of}

-- How many elements pass a test.
abbrev pub tally {ℓ} : {A : Type ℓ} → (A → Bool) → List A → ℕ
tally q [] = 0
tally q (x ∷ xs) = let rest = tally q xs in if q x then suc rest else rest

pub tally-append {ℓ} :
    {A : Type ℓ} (q : A → Bool) (xs ys : List A) → tally q (xs ++ ys) ≡ tally q xs + tally q ys
tally-append q [] ys = omega arith
tally-append q (x ∷ xs) ys = ground (arith, tally-append q xs ys)

abbrev pub in_hand : List Worker → List SecurityEvent
in_hand [] = []
in_hand (waiting ∷ ws) = in_hand ws
in_hand (finished ∷ ws) = in_hand ws
in_hand (busy e ∷ ws) = e ∷ in_hand ws

abbrev pub any_finished : List Worker → Bool
any_finished [] = false
any_finished (waiting ∷ ws) = any_finished ws
any_finished (finished ∷ ws) = true
any_finished (busy e ∷ ws) = any_finished ws

pub any_finished-append :
    (ws vs : List Worker) → any_finished (ws ++ vs) ≡ (any_finished ws || any_finished vs)
any_finished-append [] vs = refl
any_finished-append (waiting ∷ ws) vs = any_finished-append ws vs
any_finished-append (finished ∷ ws) vs = refl
any_finished-append (busy e ∷ ws) vs = any_finished-append ws vs

pub tally-in_hand :
    (q : SecurityEvent → Bool) (ws vs : List Worker)
    → tally q (in_hand (ws ++ vs)) ≡ tally q (in_hand ws) + tally q (in_hand vs)
tally-in_hand q [] vs = omega arith
tally-in_hand q (waiting ∷ ws) vs = tally-in_hand q ws vs
tally-in_hand q (finished ∷ ws) vs = tally-in_hand q ws vs
tally-in_hand q (busy e ∷ ws) vs = ground (arith, tally-in_hand q ws vs)

-- The sums over a pool of workers, and over one that a worker is picked from.
pub ruleset pool_sums = (arith, tally-append, tally-in_hand, any_finished-append)

all_any :
    (w : Worker) (ws : List Worker) → all_finished (w ∷ ws) ≡ true → any_finished (w ∷ ws) ≡ true
all_any waiting ws h = cc
all_any finished ws h = refl
all_any (busy e) ws h = cc

pub any_of_all :
    (ws : List Worker) → 0 < length ws → all_finished ws ≡ true → any_finished ws ≡ true
any_of_all [] some_worker h = absurd (omega arith)
any_of_all (w ∷ ws) some_worker h = all_any w ws h

pub all_idle : (ws : List Worker) → all_finished ws ≡ true → in_hand ws ≡ []
all_idle [] h = refl
all_idle (waiting ∷ ws) h = cc
all_idle (finished ∷ ws) h = all_idle ws h
all_idle (busy e ∷ ws) h = cc

pub workers_of_idle :
    (q : SecurityEvent → Bool) (n : ℕ)
    → (tally q (in_hand (workers_of n)) ≡ 0) × (any_finished (workers_of n) ≡ false)
workers_of_idle q zero = (refl, refl)
workers_of_idle q (suc n) = workers_of_idle q n
