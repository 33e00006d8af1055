-- ===== src/Collector/Stream.antt =====
-- pkg/collector/client.go, `streamEvents`: from the responses of Tetragon's stream through the parser into
-- the buffer. The connection is gRPC's; a receive gives a response, the end of the stream or an error.
pub mod Accounting
pub mod Examples
use ztre.Base.{ℕ, Bool, true, false, Option, none, some, List, [], ◌∷◌}
use ztre.Collector.Event.{SecurityEvent}
use ztre.Collector.Buffer.{EventBuffer, push}
use ztre.Collector.Parser.{Response, parse}

-- What `stream.Recv` returns; a response comes with the clock that the parser reads, an error with
-- whether the context is cancelled.
pub data Received : Type 0 where
  response : Option Response → ℕ → Received
  end_of_file : Received
  broken : Bool → Received

-- How `streamEvents` returns: `waiting` is still in the loop.
pub data Outcome : Type 0 where
  waiting closed_by_server stream_failed cancelled : Outcome

abbrev pub push_event : EventBuffer → Option SecurityEvent → EventBuffer
push_event b none = b
push_event b (some event) = (push b (some event)).0

-- The loop over what is received.
unfoldable pub stream_events : EventBuffer → List Received → EventBuffer × Outcome
unfolding parse push
stream_events b [] = (b, waiting)
stream_events b (response res now ∷ rest) = stream_events (push_event b (parse now res)) rest
stream_events b (end_of_file ∷ rest) = (b, closed_by_server)
stream_events b (broken true ∷ rest) = (b, cancelled)
stream_events b (broken false ∷ rest) = (b, stream_failed)
