-- ===== src/Collector/Session.antt =====
-- pkg/collector/client.go: `streamEvents` with its connection, and the loop of `Start` around it.
pub mod Reconnecting
mod Examples
use ztre.Base.{ℤ, Bool, true, false, ◌||◌, List, [], ◌∷◌, if◌then◌else◌}
use ztre.Collector.Buffer.{EventBuffer}
use ztre.Collector.Client.{
  ClientConfig, Attempt, failed_early, failed_late, ended, wait_after, grow,
}
use ztre.Collector.Stream.{
  Received, Outcome, waiting, closed_by_server, stream_failed, cancelled, stream_events,
}

-- One turn of the loop: whether grpc.NewClient and GetEvents work, what the stream gives, whether the turn
-- took five seconds, and whether the context is cancelled when it ends or during the wait after it.
pub record Session : Type 0 where
  pub dials : Bool
  pub opens : Bool
  pub received : List Received
  pub is_late : Bool
  pub cancelled_after : Bool
  pub cancelled_waiting : Bool

-- How `streamEvents` goes: it is still in its loop, or returns nil or an error.
pub data End : Type 0 where
  streaming returned_nil returned_error : End

abbrev pub end_of : Outcome → End
end_of waiting = streaming
end_of cancelled = returned_nil
end_of closed_by_server = returned_error
end_of stream_failed = returned_error

-- `streamEvents`
unfoldable pub run_session : EventBuffer → Session → EventBuffer × End
unfolding stream_events
run_session b s =
    let (b', outcome) = stream_events b s.received in
    if s.dials
    then (if s.opens then (b', end_of outcome) else (b, returned_error))
    else (b, returned_error)

abbrev pub attempt_of : Bool → End → Attempt
attempt_of is_late streaming = ended
attempt_of is_late returned_nil = ended
attempt_of is_late returned_error = if is_late then failed_late else failed_early

-- Where `Start` is: still in its loop, or back with nil.
pub data Progress : Type 0 where
  looping returned : Progress

-- The buffer, the waits that were begun, and where `Start` is.
pub record Streamed : Type 0 where
  pub buffer : EventBuffer
  pub waits : List ℤ
  pub progress : Progress

abbrev pub after_wait : ℤ → Streamed → Streamed
after_wait wait r = record r { waits = wait ∷ r.waits }

-- After `streamEvents` has returned: a return, or a wait that the context ends or the next turn follows.
abbrev pub go_on : Session → EventBuffer → ℤ → Streamed → Streamed
go_on s b wait next =
    if s.cancelled_after
    then record { buffer = b; waits = []; progress = returned }
    else if s.cancelled_waiting
    then record { buffer = b; waits = wait ∷ []; progress = returned }
    else after_wait wait next

-- What follows a session, from the loop's rest on a backoff.
abbrev pub continue_with :
    ClientConfig → ℤ → Session → EventBuffer × End → (ℤ → Streamed) → Streamed
continue_with config backoff s (b, streaming) rest = record {
  buffer = b;
  waits = [];
  progress = looping;
}
continue_with config backoff s (b, returned_nil) rest =
    let wait = wait_after config backoff (attempt_of s.is_late returned_nil) in
    go_on s b wait (rest (grow config wait))
continue_with config backoff s (b, returned_error) rest =
    let wait = wait_after config backoff (attempt_of s.is_late returned_error) in
    go_on s b wait (rest (grow config wait))

-- The loop of `Start` over its sessions, with the backoff.
unfoldable pub start_from : ClientConfig → EventBuffer → ℤ → List Session → Streamed
unfolding run_session wait_after grow
start_from config b backoff [] = record { buffer = b; waits = []; progress = looping }
start_from config b backoff (s ∷ rest) =
    let (b', end) = run_session b s in
    continue_with config backoff s (b', end) (λ next. start_from config b' next rest)

unfoldable pub start_sessions : ClientConfig → EventBuffer → List Session → Streamed
unfolding start_from
start_sessions config b sessions = start_from config b config.reconnect_interval sessions
