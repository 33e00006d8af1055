-- ===== src/Decision/Dispatcher/Broadcast.antt =====
-- A broadcast reaches every sink, whatever the others do (pkg/decision/dispatcher.go).
use ztre.Base.{
  ℕ, suc, ◌+◌, ◌≤◌, ◌<◌, GoString, text_eq, Bool, true, false, List, [], ◌∷◌, ◌++◌, ◌≡◌, refl, ap,
  sym, ◌∙◌, ◌↔◌, arith, if◌then◌else◌,
}
use mathlib.Core.List.{Perm, Permᴰ}
use mathlib.Core.Path.{ap₂}
use mathlib.Core.Logic.{∥∥₁_elim}
use native.Mathlib.Nat.{ℕ_set}
use ztre.Float64.{Float64}
use ztre.Decision.Alert.{Alert}
use ztre.Decision.Dispatcher.{
  SendResult, sent, failed, panicked, AlertSink, PostResult, no_request, no_response, status,
  webhook_send, Dispatcher, settle, run_sends, dispatch,
}

-- How often a name was counted.
abbrev pub count : GoString → List GoString → ℕ
count k [] = 0
count k (x ∷ xs) = let rest = count k xs in if text_eq x k then suc rest else rest

count-append : (k : GoString) (xs ys : List GoString) → count k (xs ++ ys) ≡ count k xs + count k ys
count-append k [] ys = omega arith
count-append k (x ∷ xs) ys = ground (arith, count-append k xs ys)

-- What a send that ends so adds to the count of a name, and to the errors logged.
abbrev pub counted : SendResult → Bool → ℕ
counted sent true = 1
counted sent false = 0
counted failed named = 0
counted panicked named = 0

abbrev pub logged : SendResult → ℕ
logged sent = 0
logged failed = 1
logged panicked = 1

-- How many sinks of the name `k` send the alert, and how many sinks do not send it.
abbrev pub sent_by : (f : Float64) → GoString → List (AlertSink f) → Alert f → ℕ
sent_by f k [] alert = 0
sent_by f k (s ∷ rest) alert = counted (s.send alert) (text_eq s.name k) + sent_by f k rest alert

abbrev pub not_sent : (f : Float64) → List (AlertSink f) → Alert f → ℕ
not_sent f [] alert = 0
not_sent f (s ∷ rest) alert = logged (s.send alert) + not_sent f rest alert

module _ (f : Float64) (alert : Alert f) where
  count-settle :
      (d : Dispatcher f) (s : AlertSink f) (k : GoString) (r : SendResult)
      → count k (settle f d s r).dispatched ≡ count k d.dispatched + counted r (text_eq s.name k)
  count-settle d s k sent =
      count-append k d.dispatched (s.name ∷ [])
      ∙ ap (λ n. count k d.dispatched + n) (one (text_eq s.name k))
    where
      one : (b : Bool) → (if b then 1 else 0) ≡ counted sent b
      one true = refl
      one false = refl
  count-settle d s k failed = omega arith
  count-settle d s k panicked = omega arith

  logged-settle :
      (d : Dispatcher f) (s : AlertSink f) (r : SendResult)
      → (settle f d s r).errors_logged ≡ d.errors_logged + logged r
  logged-settle d s sent = omega arith
  logged-settle d s failed = refl
  logged-settle d s panicked = refl

  count-run_sends :
      (d : Dispatcher f) (order : List (AlertSink f)) (k : GoString)
      → count k (run_sends f d order alert).dispatched
        ≡ count k d.dispatched + sent_by f k order alert
  unfolding run_sends
  count-run_sends d [] k = omega arith
  count-run_sends d (s ∷ rest) k = omega (
    arith,
    count-settle d s k (s.send alert),
    count-run_sends (settle f d s (s.send alert)) rest k,
  )

  logged-run_sends :
      (d : Dispatcher f) (order : List (AlertSink f))
      → (run_sends f d order alert).errors_logged ≡ d.errors_logged + not_sent f order alert
  unfolding run_sends
  logged-run_sends d [] = omega arith
  logged-run_sends d (s ∷ rest) =
      omega (
        arith,
        logged-settle d s (s.send alert),
        logged-run_sends (settle f d s (s.send alert)) rest,
      )

  -- A broadcast sends the alert to every sink, whatever the others do: each name is counted once for each
  -- sink of that name that sends without an error or a panic, and every other sink is logged.
  pub dispatch_exact :
      (d : Dispatcher f) (k : GoString)
      → (count k (dispatch f d alert).dispatched ≡ count k d.dispatched + sent_by f k d.sinks alert)
        × ((dispatch f d alert).errors_logged ≡ d.errors_logged + not_sent f d.sinks alert)
  unfolding dispatch
  dispatch_exact d k = (count-run_sends d d.sinks k, logged-run_sends d d.sinks)

  sent_by-permᴰ :
      (k : GoString) {xs ys : List (AlertSink f)}
      → Permᴰ xs ys
      → sent_by f k xs alert ≡ sent_by f k ys alert
  sent_by-permᴰ k Permᴰ.nil = refl
  sent_by-permᴰ k (Permᴰ.cons e p) =
      ap₂ ◌+◌ (ap (λ s. counted (s.send alert) (text_eq s.name k)) e) (sent_by-permᴰ k p)
  sent_by-permᴰ k (Permᴰ.swap {a} {b} {a'} {b'} {l = l} e d) = omega (
    arith,
    ap (λ (s : AlertSink f). counted (s.send alert) (text_eq s.name k)) e,
    ap (λ (s : AlertSink f). counted (s.send alert) (text_eq s.name k)) d,
  )
  sent_by-permᴰ k (Permᴰ.trans p q) = sent_by-permᴰ k p ∙ sent_by-permᴰ k q

  -- The order in which the concurrent sends end makes no difference to what is counted.
  pub dispatch_order :
      (d : Dispatcher f) (order : List (AlertSink f)) (k : GoString)
      → Perm order d.sinks
      → count k (run_sends f d order alert).dispatched ≡ count k (dispatch f d alert).dispatched
  unfolding dispatch
  dispatch_order d order k p =
      count-run_sends d order k
      ∙ ap (λ n. count k d.dispatched + n) (∥∥₁_elim p (ℕ_set _ _) (λ q. sent_by-permᴰ k q))
      ∙ sym (count-run_sends d d.sinks k)

-- The webhook counts as sent exactly on a response with a status from 200 to 299.
pub webhook_send_iff :
    (r : PostResult)
    → (webhook_send r ≡ sent) ↔ ((code : ℕ) × (r ≡ status code) × (200 ≤ code) × (code < 300))
unfolding webhook_send
webhook_send_iff no_request = (λ e. absurd (ground arith), λ w. absurd (ground arith))
webhook_send_iff no_response = (λ e. absurd (ground arith), λ w. absurd (ground arith))
webhook_send_iff (status code) = (λ e. (code, refl, ground arith, ground arith), λ w. ground arith)
