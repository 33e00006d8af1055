-- ===== src/Collector/Session/Reconnecting.antt =====
-- What the client delivers over its reconnections, and when it stops (pkg/collector/client.go).
use ztre.Base.{
  ℤ, Bool, true, false, ◌||◌, List, [], ◌∷◌, ◌++◌, ◌≡◌, refl, arith, All, if◌then◌else◌, if_cases,
  Bool-cases, inl, inr,
}
use ztre.Collector.Buffer.{EventBuffer}
use ztre.Collector.Parser.{parse}
use ztre.Collector.Client.{ClientConfig, wait_after, grow}
use ztre.Collector.Client.Backoff.{IsPaced, Between, wait-Between, grow-Between}
use ztre.Collector.Stream.{
  Received, response, end_of_file, broken, Outcome, waiting, closed_by_server, stream_failed,
  cancelled, push_event, stream_events,
}
use ztre.Collector.Event.{SecurityEvent}
use ztre.Collector.Stream.Accounting.{
  parsed_events, IsOpen, IsFed, IsFed-nothing, IsFed-append, stream_events-IsFed,
}
use ztre.Collector.Session.{
  Session, End, streaming, returned_nil, returned_error, end_of, run_session, attempt_of, looping,
  Streamed, go_on, continue_with, start_from, start_sessions,
}

-- How the loop over the stream ends, whatever the buffer does.
abbrev pub outcome_of : List Received → Outcome
outcome_of [] = waiting
outcome_of (response res now ∷ rest) = outcome_of rest
outcome_of (end_of_file ∷ rest) = closed_by_server
outcome_of (broken true ∷ rest) = cancelled
outcome_of (broken false ∷ rest) = stream_failed

-- The events that a session brings, and whether `Start` stays or returns with it.
abbrev pub brings : Session → List SecurityEvent
brings s = if s.dials then (if s.opens then parsed_events s.received else []) else []

abbrev pub ending : Session → End
ending s =
    if s.dials
    then (if s.opens then end_of (outcome_of s.received) else returned_error)
    else returned_error

abbrev pub is_streaming : End → Bool
is_streaming streaming = true
is_streaming returned_nil = false
is_streaming returned_error = false

abbrev pub is_cancelled : Session → Bool
is_cancelled s = s.cancelled_after || s.cancelled_waiting

-- The events of the sessions up to the last one that `Start` gets to.
abbrev pub delivered : List Session → List SecurityEvent
delivered [] = []
delivered (s ∷ rest) =
    let later = delivered rest in
    if is_streaming (ending s) || is_cancelled s then brings s else brings s ++ later

abbrev pub any_cancelled : List Session → Bool
any_cancelled [] = false
any_cancelled (s ∷ rest) = is_cancelled s || any_cancelled rest

outcome-stream_events :
    (b : EventBuffer) (rs : List Received) → (stream_events b rs).1 ≡ outcome_of rs
unfolding stream_events
outcome-stream_events b [] = refl
outcome-stream_events b (response res now ∷ rest) =
    outcome-stream_events (push_event b (parse now res)) rest
outcome-stream_events b (end_of_file ∷ rest) = refl
outcome-stream_events b (broken true ∷ rest) = refl
outcome-stream_events b (broken false ∷ rest) = refl

ending-run_session : (b : EventBuffer) (s : Session) → (run_session b s).1 ≡ ending s
unfolding run_session
ending-run_session b s = ground (arith, outcome-stream_events b s.received)

run_session-IsOpen :
    (b : EventBuffer) (s : Session)
    → IsOpen b
    → IsOpen (run_session b s).0 × IsFed b (brings s) (run_session b s).0
unfolding run_session
run_session-IsOpen b s h =
    if_cases (λ (r : EventBuffer × End). IsOpen r.0 × IsFed b (brings s) r.0) s.dials
      (λ d.
        if_cases (λ (r : EventBuffer × End). IsOpen r.0 × IsFed b (brings s) r.0) s.opens
          (λ o. rw (d, o) (stream_events-IsFed b s.received h))
          (λ o. (h, rw (d, o) (IsFed-nothing b))))
      (λ d. (h, rw d (IsFed-nothing b)))

-- What holds of `Start` with a buffer before it, over these events, where it is known whether the context is ever
-- cancelled.
pub record IsDelivering (config : ClientConfig) (b : EventBuffer) (events : List SecurityEvent)
    (stops : Bool) (r : Streamed) : Type 0 where
  pub accepts : IsOpen r.buffer
  pub fed : IsFed b events r.buffer
  pub paced : All (Between config) r.waits
  pub stays : stops ≡ false → r.progress ≡ looping

go_on-IsDelivering :
    (config : ClientConfig) (b b' : EventBuffer) (s : Session) (wait : ℤ) (r : Streamed)
    (es later : List SecurityEvent) (stops : Bool)
    → Between config wait
    → IsOpen b'
    → IsFed b es b'
    → IsDelivering config b' later stops r
    → IsDelivering config b
        (if is_cancelled s then es else es ++ later)
        (is_cancelled s || stops)
        (go_on s b' wait r)
go_on-IsDelivering config b b' s wait r es later stops w h e ih =
    elim (Bool-cases s.cancelled_after) [
      | inl after ↦ rw after (record { accepts = h; fed = e; paced = tt; stays = λ x. cc })
      | inr before ↦ elim (Bool-cases s.cancelled_waiting) [
        | inl waited ↦
            rw (before, waited) (record { accepts = h; fed = e; paced = (w, tt); stays = λ x. cc })
        | inr more ↦
            rw (before, more)
              (record {
                accepts = ih.accepts;
                fed = IsFed-append b b' r.buffer es later e ih.fed;
                paced = (w, ih.paced);
                stays = ih.stays;
              })
      ]
    ]

continue-IsDelivering :
    (config : ClientConfig) (b b' : EventBuffer) (backoff : ℤ) (s : Session) (end : End)
    (k : ℤ → Streamed) (es later : List SecurityEvent) (stops : Bool)
    → IsPaced config
    → Between config backoff
    → IsOpen b'
    → IsFed b es b'
    → ((next : ℤ) → Between config next → IsDelivering config b' later stops (k next))
    → IsDelivering config b
        (if is_streaming end || is_cancelled s then es else es ++ later)
        (is_cancelled s || stops)
        (continue_with config backoff s (b', end) k)
continue-IsDelivering config b b' backoff s streaming k es later stops p w h e ih = record {
  accepts = h;
  fed = e;
  paced = tt;
  stays = λ _. refl;
}
continue-IsDelivering config b b' backoff s returned_nil k es later stops p w h e ih =
    let a = attempt_of s.is_late returned_nil in
    let wait = wait_after config backoff a in
    let paced = wait-Between config backoff a p w in
    go_on-IsDelivering config b b' s wait (k (grow config wait)) es later stops paced h e
      (ih (grow config wait) (grow-Between config wait p paced))
continue-IsDelivering config b b' backoff s returned_error k es later stops p w h e ih =
    let a = attempt_of s.is_late returned_error in
    let wait = wait_after config backoff a in
    let paced = wait-Between config backoff a p w in
    go_on-IsDelivering config b b' s wait (k (grow config wait)) es later stops paced h e
      (ih (grow config wait) (grow-Between config wait p paced))

start_from-IsDelivering :
    (config : ClientConfig) (b : EventBuffer) (backoff : ℤ) (sessions : List Session)
    → IsPaced config
    → Between config backoff
    → IsOpen b
    → IsDelivering config b
        (delivered sessions)
        (any_cancelled sessions)
        (start_from config b backoff sessions)
unfolding start_from
start_from-IsDelivering config b backoff [] p w h = record {
  accepts = h;
  fed = IsFed-nothing b;
  paced = tt;
  stays = λ _. refl;
}
start_from-IsDelivering config b backoff (s ∷ rest) p w h =
    let (b', end) = run_session b s in
    let (open', count) = run_session-IsOpen b s h in
    rw⁻¹ (ending-run_session b s) (
      continue-IsDelivering config b b' backoff s end (λ next. start_from config b' next rest)
        (brings s) (delivered rest) (any_cancelled rest) p w open' count
        (λ next paced. start_from-IsDelivering config b' next rest p paced open'))

-- Over any sequence of sessions (failed dials and opens, streams that the server ends or that break, long or short)
-- on an open buffer from which nothing is taken meanwhile: of the events of all sessions up to the last, in the order
-- in which they came, none left out or repeated by a reconnection, as many as the buffer has room for stand
-- behind what was queued and are counted as ingested, and the rest is counted as dropped; every wait lies between the
-- reconnect interval and the maximal backoff; and `Start` returns only if the context is cancelled. The intervals
-- are in order and below 2^62.
pub start_sessions-IsDelivering :
    (config : ClientConfig) (b : EventBuffer) (sessions : List Session)
    → IsPaced config
    → IsOpen b
    → IsDelivering config b
        (delivered sessions)
        (any_cancelled sessions)
        (start_sessions config b sessions)
unfolding start_sessions
start_sessions-IsDelivering config b sessions p h =
    start_from-IsDelivering config b config.reconnect_interval sessions p (omega (arith, p.ordered))
      h
