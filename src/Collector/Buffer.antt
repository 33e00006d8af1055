-- ===== src/Collector/Buffer.antt =====
-- pkg/collector/buffer.go: the bounded queue between the stream and the workers. Its channel is a
-- list with a capacity; a send on a closed channel and a second close would panic.
pub mod Fifo
mod Examples
use ztre.Base.{
  ℕ, ℤ, pos, negsuc, zero, suc, ◌+◌, ◌%◌, ◌^◌, ◌==◌, ltb, Bool, true, false, Option, none, some,
  List, [], ◌∷◌, ◌++◌, length, if◌then◌else◌,
}
use ztre.Collector.Event.{SecurityEvent}

pub record EventBuffer : Type 0 where
  pub queue : List SecurityEvent
  pub channel_closed : Bool
  pub capacity : ℕ
  -- uint64
  pub dropped : ℕ
  pub is_closed : Bool
  -- closeOnce
  pub close_done : Bool
  pub warnings : ℕ
  pub ingested_total : ℕ
  pub dropped_total : ℕ

abbrev buffer_of : ℕ → EventBuffer
buffer_of capacity = record {
  queue = [];
  channel_closed = false;
  capacity = capacity;
  dropped = 0;
  is_closed = false;
  close_done = false;
  warnings = 0;
  ingested_total = 0;
  dropped_total = 0;
}

unfoldable pub new_event_buffer : ℤ → EventBuffer
new_event_buffer (pos zero) = buffer_of 50000
new_event_buffer (pos (suc n)) = buffer_of (suc n)
new_event_buffer (negsuc n) = buffer_of 50000

pub data Pushed : Type 0 where
  accepted refused panicked : Pushed

-- The `default` case of the `select`: the event is dropped and counted, with a warning at every
-- hundredth drop.
unfoldable pub drop_event : EventBuffer → EventBuffer
drop_event b =
    let d = (b.dropped + 1) % 2 ^ 64 in
    record b {
      dropped = d;
      dropped_total = b.dropped_total + 1;
      warnings = if (d % 100) == 1 then b.warnings + 1 else b.warnings;
    }

-- `none` is a nil event.
unfoldable pub push : EventBuffer → Option SecurityEvent → EventBuffer × Pushed
unfolding drop_event
push b none = (b, refused)
push b (some event) =
    if b.is_closed
    then (b, refused)
    else if b.channel_closed
    then (b, panicked)
    else if ltb (length b.queue) b.capacity
    then (
      record b { queue = b.queue ++ (event ∷ []); ingested_total = b.ingested_total + 1 },
      accepted,
    )
    else (drop_event b, refused)

-- What `for event := range buffer.Events()` sees.
pub data Received : Type 0 where
  event : SecurityEvent → Received
  waits ended : Received

abbrev pub take_first : EventBuffer → List SecurityEvent → EventBuffer × Received
take_first b [] = (b, if b.channel_closed then ended else waits)
take_first b (e ∷ rest) = (record b { queue = rest }, event e)

unfoldable pub receive : EventBuffer → EventBuffer × Received
receive b = take_first b b.queue

-- The new state, and whether the channel was closed twice.
unfoldable pub close : EventBuffer → EventBuffer × Bool
close b =
    if b.close_done
    then (b, false)
    else (record b { is_closed = true; channel_closed = true; close_done = true }, b.channel_closed)
