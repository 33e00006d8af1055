-- ===== src/Collector/Session/Examples.antt =====
-- A client that reconnects twice, and an instance of the theorem on it (pkg/collector/client.go).
use ztre.Base.{
  pos, ◌*◌, double_int64, to_int64, lit, length, Bool, true, false, List, [], ◌∷◌, ◌≡◌, refl, arith,
}
use ztre.Collector.Buffer.{new_event_buffer, push, drop_event}
use ztre.Collector.Parser.{parse}
use ztre.Collector.Client.{ClientConfig, second, wait_after, grow}
use ztre.Collector.Stream.{Received, broken, stream_events}
use ztre.Collector.Stream.Examples.{received, small}
use ztre.Collector.Session.{Session, returned, run_session, start_from, start_sessions}
use ztre.Collector.Session.Reconnecting.{delivered, IsDelivering, start_sessions-IsDelivering}

abbrev paced : ClientConfig
paced = record {
  socket_path = lit "unix:///run/tetragon.sock";
  reconnect_interval = pos second;
  max_reconnect_backoff = pos (10 * second);
}

abbrev session : Bool → List Received → Session
session dials received = record {
  dials = dials;
  opens = true;
  received = received;
  is_late = false;
  cancelled_after = false;
  cancelled_waiting = false;
}

-- A dial that fails, a stream that the server ends, and a stream that the shutdown cancels.
abbrev sessions : List Session
sessions =
    session false []
    ∷ session true received
    ∷ record (session true (broken true ∷ [])) { cancelled_after = true }
    ∷ []

-- The third attempt comes after one second and two.
twice_waited :
    let r = start_sessions paced small sessions in
    (r.waits ≡ pos second ∷ pos (2 * second) ∷ [])
    × (r.progress ≡ returned)
    × (length r.buffer.queue ≡ 1)
unfolding start_sessions start_from run_session stream_events wait_after grow double_int64 to_int64
    parse push drop_event new_event_buffer
twice_waited = (refl, refl, refl)

-- The two events of the second session's pod: one is queued, the other dropped.
start_sessions-IsDelivering_example :
    IsDelivering paced small (delivered sessions) true (start_sessions paced small sessions)
unfolding new_event_buffer
start_sessions-IsDelivering_example =
    start_sessions-IsDelivering paced small sessions
      (record { positive = omega arith; ordered = omega arith; doubles = omega arith })
      (record { accepting = refl; channel = refl; parsed = tt })
