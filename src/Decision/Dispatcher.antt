-- ===== src/Decision/Dispatcher.antt =====
-- pkg/decision/dispatcher.go: the sinks and the broadcast of an alert to all of them. The goroutines
-- of a broadcast share only the metric, so a broadcast is any order of the sinks' sends.
pub mod Broadcast
mod Examples
use ztre.Base.{
  ℕ, ℤ, pos, leb_ℤ, suc, ◌+◌, leb, ltb, ◌==◌, GoString, lit, text_eq, Bool, true, false, ◌||◌,
  Option, none, some, List, [], ◌∷◌, ◌++◌, if◌then◌else◌,
}
use ztre.Float64.{Float64}
use ztre.Decision.Alert.{Alert}

-- How a call of `Send` ends.
pub data SendResult : Type 0 where
  sent failed panicked : SendResult

-- An `AlertSink`.
pub record AlertSink (f : Float64) : Type 0 where
  pub name : GoString
  pub send : Alert f → SendResult

abbrev pub stdout_sink : (f : Float64) → AlertSink f
stdout_sink f = record { name = lit "stdout"; send = λ _. sent }

-- What the HTTP client gives: an error before a response, or the response's status code.
pub data PostResult : Type 0 where
  no_request no_response : PostResult
  status : ℕ → PostResult

-- `WebhookAlertSink`, with the client's timeout; a Duration is in nanoseconds.
pub record WebhookAlertSink : Type 0 where
  pub url : GoString
  pub timeout : ℤ
  pub extra_headers : List (GoString × GoString)

unfoldable pub new_webhook_alert_sink : GoString → ℤ → List (GoString × GoString) → WebhookAlertSink
new_webhook_alert_sink url timeout headers = record {
  url = url;
  timeout = if leb_ℤ timeout (pos 0) then pos 5000000000 else timeout;
  extra_headers = headers;
}

-- `WebhookAlertSink.Send`
unfoldable pub webhook_send : PostResult → SendResult
webhook_send no_request = failed
webhook_send no_response = failed
webhook_send (status code) = if ltb code 200 || leb 300 code then failed else sent

abbrev pub webhook_sink : (f : Float64) → (Alert f → PostResult) → AlertSink f
webhook_sink f post = record { name = lit "webhook"; send = λ alert. webhook_send (post alert) }

-- The sinks, the metric AlertsDispatchedTotal as the names counted, and the errors logged.
pub record Dispatcher (f : Float64) : Type 0 where
  pub sinks : List (AlertSink f)
  pub dispatched : List GoString
  pub errors_logged : ℕ

unfoldable pub register_sink : (f : Float64) → Dispatcher f → AlertSink f → Dispatcher f
register_sink f d sink = record d { sinks = d.sinks ++ (sink ∷ []) }

unfoldable pub register_all : (f : Float64) → Dispatcher f → List (AlertSink f) → Dispatcher f
unfolding register_sink
register_all f d [] = d
register_all f d (s ∷ rest) = register_all f (register_sink f d s) rest

unfoldable pub new_dispatcher : (f : Float64) → List (AlertSink f) → Dispatcher f
unfolding register_all
new_dispatcher f initial =
    register_all f (record { sinks = []; dispatched = []; errors_logged = 0 }) initial

-- The end of one goroutine: a panic is recovered and logged.
abbrev pub settle : (f : Float64) → Dispatcher f → AlertSink f → SendResult → Dispatcher f
settle f d sink sent = record d { dispatched = d.dispatched ++ (sink.name ∷ []) }
settle f d sink failed = record d { errors_logged = d.errors_logged + 1 }
settle f d sink panicked = record d { errors_logged = d.errors_logged + 1 }

-- The sends of a broadcast in the order in which they end.
unfoldable pub run_sends :
    (f : Float64) → Dispatcher f → List (AlertSink f) → Alert f → Dispatcher f
run_sends f d [] alert = d
run_sends f d (sink ∷ rest) alert = run_sends f (settle f d sink (sink.send alert)) rest alert

-- `Dispatch`, with the sends ending in the order of the sinks.
unfoldable pub dispatch : (f : Float64) → Dispatcher f → Alert f → Dispatcher f
unfolding run_sends
dispatch f d alert = run_sends f d d.sinks alert
