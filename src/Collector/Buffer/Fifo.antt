-- ===== src/Collector/Buffer/Fifo.antt =====
-- The buffer as a first-in first-out queue under any interleaving of pushes, receives and closes
-- (pkg/collector/buffer.go). The lock and the channel make each call one step.
use ztre.Base.{
  ℕ, ℤ, pos, negsuc, ◌<◌, zero, suc, ◌%◌, ◌^◌, ◌≤◌, ltb, Bool, true, false, not, ◌&&◌, Option, none,
  some, List, [], ◌∷◌, ◌++◌, length, length-append, ◌≡◌, refl, sym, ◌∙◌, arith, if◌then◌else◌,
}
use mathlib.Core.List.{append_assoc, append-nil}
use ztre.Collector.Event.{SecurityEvent}
use ztre.Collector.Buffer.{
  EventBuffer, new_event_buffer, Pushed, accepted, refused, panicked, drop_event, push, Received,
  event, waits, ended, take_first, receive, close,
}

pub data Call : Type 0 where
  pushes : Option SecurityEvent → Call
  receives closes : Call

-- The buffer with the history of its calls: what was accepted, what was handed to a worker, how many events an
-- open buffer did not accept, and of these how many while its queue had room, and whether a call panicked.
pub record Run : Type 0 where
  pub buffer : EventBuffer
  pub taken : List SecurityEvent
  pub delivered : List SecurityEvent
  pub missed : ℕ
  pub missed_early : ℕ
  pub panic : Bool

-- A refusal of an event by a buffer that was open, and one of these with room left.
abbrev is_miss : EventBuffer → Option SecurityEvent → Bool
is_miss before none = false
is_miss before (some e) = not before.is_closed

abbrev count_if : Bool → ℕ → ℕ
count_if b n = if b then suc n else n

abbrev pushed : Run → Option SecurityEvent → EventBuffer × Pushed → Run
pushed r e (b, accepted) = record r { buffer = b; taken = r.taken ++ offered e }
  where
    offered : Option SecurityEvent → List SecurityEvent
    offered none = []
    offered (some x) = x ∷ []
pushed r e (b, refused) = record r {
  buffer = b;
  missed = count_if (is_miss r.buffer e) r.missed;
  missed_early =
      count_if (is_miss r.buffer e && ltb (length r.buffer.queue) r.buffer.capacity) r.missed_early;
}
pushed r e (b, panicked) = record r { buffer = b; panic = true }

abbrev received : Run → EventBuffer × Received → Run
received r (b, event e) = record r { buffer = b; delivered = r.delivered ++ (e ∷ []) }
received r (b, waits) = record r { buffer = b }
received r (b, ended) = record r { buffer = b }

unfoldable pub call : Run → Call → Run
call r (pushes e) = pushed r e (push r.buffer e)
call r receives = received r (receive r.buffer)
call r closes =
    let (b, twice) = close r.buffer in
    record r { buffer = b; panic = if twice then true else r.panic }

unfoldable pub calls : Run → List Call → Run
calls r [] = r
calls r (c ∷ rest) = calls (call r c) rest

pub record IsFifo (r : Run) : Type 0 where
  -- Nothing is lost, repeated or reordered between acceptance and delivery.
  pub in_order : r.taken ≡ r.delivered ++ r.buffer.queue
  pub bounded : length r.buffer.queue ≤ r.buffer.capacity
  pub ingested : r.buffer.ingested_total ≡ length r.taken
  pub counted : r.buffer.dropped ≡ r.buffer.dropped_total % 2 ^ 64
  pub closed_once : r.buffer.channel_closed ≡ r.buffer.close_done
  pub closed_flag : r.buffer.is_closed ≡ r.buffer.close_done
  pub no_panic : r.panic ≡ false

-- A buffer that counts its drops, and drops only when it is full.
pub record IsExact (r : Run) : Type 0 where
  pub fifo : IsFifo r
  pub dropped : r.buffer.dropped_total ≡ r.missed
  pub only_full : r.missed_early ≡ 0

push-IsFifo : (r : Run) (e : Option SecurityEvent) → IsFifo r → IsFifo (call r (pushes e))
unfolding call push
push-IsFifo r none h = ground arith
push-IsFifo r (some e) h = ground (
  arith,
  append_assoc r.delivered r.buffer.queue (e ∷ []),
  length-append r.buffer.queue (e ∷ []),
  length-append r.taken (e ∷ []),
)

take-IsFifo :
    (r : Run) (q : List SecurityEvent)
    → r.buffer.queue ≡ q
    → IsFifo r
    → IsFifo (received r (take_first r.buffer q))
take-IsFifo r [] e h = ground arith
take-IsFifo r (x ∷ q) e h = ground (arith, append_assoc r.delivered (x ∷ []) q)

close-IsFifo : (r : Run) → IsFifo r → IsFifo (call r closes)
unfolding call close
close-IsFifo r h = ground arith

call-IsFifo : (r : Run) (c : Call) → IsFifo r → IsFifo (call r c)
call-IsFifo r (pushes e) h = push-IsFifo r e h
call-IsFifo r receives h = unfold call receive in take-IsFifo r r.buffer.queue refl h
call-IsFifo r closes h = close-IsFifo r h

calls-IsFifo : (r : Run) (cs : List Call) → IsFifo r → IsFifo (calls r cs)
unfolding calls
calls-IsFifo r [] h = h
calls-IsFifo r (c ∷ cs) h = calls-IsFifo (call r c) cs (call-IsFifo r c h)

-- What a call does to the counts of the misses.
abbrev IsCounting : Run → Type 0
IsCounting r = (r.buffer.dropped_total ≡ r.missed) × (r.missed_early ≡ 0)

push-IsCounting :
    (r : Run) (e : Option SecurityEvent) → IsFifo r → IsCounting r → IsCounting (call r (pushes e))
unfolding call push drop_event
push-IsCounting r none f h = ground arith
push-IsCounting r (some e) f h = ground (arith, f.closed_flag, f.closed_once)

take-IsCounting :
    (r : Run) (q : List SecurityEvent)
    → IsCounting r
    → IsCounting (received r (take_first r.buffer q))
take-IsCounting r [] h = ground arith
take-IsCounting r (x ∷ q) h = ground arith

call-IsCounting : (r : Run) (c : Call) → IsFifo r → IsCounting r → IsCounting (call r c)
call-IsCounting r (pushes e) f h = push-IsCounting r e f h
call-IsCounting r receives f h = unfold call receive in take-IsCounting r r.buffer.queue h
call-IsCounting r closes f h = unfold call close in ground (arith, h)

call-IsExact : (r : Run) (c : Call) → IsExact r → IsExact (call r c)
call-IsExact r c h =
    let (dropped, full) = call-IsCounting r c h.fifo (h.dropped, h.only_full) in
    record { fifo = call-IsFifo r c h.fifo; dropped = dropped; only_full = full }

-- Whatever calls interleave: what was accepted is what was delivered followed by what is queued, in
-- order; the queue never passes its capacity; the counter of ingested events is the number of accepted ones, and
-- the counter of dropped events, exactly and as the buffer's own number modulo 2^64, is the number of events that
-- were not accepted while the buffer was open, which happens only with a full queue; and no call sends on a
-- closed channel or closes it twice.
pub calls-IsExact : (r : Run) (cs : List Call) → IsExact r → IsExact (calls r cs)
unfolding calls
calls-IsExact r [] h = h
calls-IsExact r (c ∷ cs) h = calls-IsExact (call r c) cs (call-IsExact r c h)

abbrev pub start : EventBuffer → Run
start b = record {
  buffer = b;
  taken = [];
  delivered = [];
  missed = 0;
  missed_early = 0;
  panic = false;
}

abbrev pub receive_times : ℕ → List Call
receive_times zero = []
receive_times (suc n) = receives ∷ receive_times n

drained :
    (r : Run) (q : List SecurityEvent)
    → r.buffer.queue ≡ q
    → ((calls r (receive_times (length q))).buffer.queue ≡ [])
      × ((calls r (receive_times (length q))).delivered ≡ r.delivered ++ q)
      × ((calls r (receive_times (length q))).buffer.channel_closed ≡ r.buffer.channel_closed)
unfolding calls call receive
drained r [] e = (e, sym (append-nil r.delivered), refl)
drained r (x ∷ q) e =
    let r' : Run = record r {
      buffer = record r.buffer { queue = q };
      delivered = r.delivered ++ (x ∷ []);
    } in
    let (empty, all, closed) = drained r' q refl in
    rw e (empty, all ∙ append_assoc r.delivered (x ∷ []) q, closed)

-- After `Close`, as many receives as there are queued events hand out every accepted event, and the
-- next one ends the worker's loop: a shutdown loses nothing that was accepted.
pub close_drains :
    (r : Run)
    → IsFifo r
    → let closed = call r closes in
      let end = calls closed (receive_times (length r.buffer.queue)) in
      (end.delivered ≡ r.taken) × ((receive end.buffer).1 ≡ ended)
unfolding receive
close_drains r h =
    let closed : Run = call r closes in
    let same : closed.buffer.queue ≡ r.buffer.queue = unfold call close in ground arith in
    let shut : closed.buffer.channel_closed ≡ true = unfold call close in ground arith in
    let kept : closed.delivered ≡ r.delivered = unfold call close in ground arith in
    let (empty, all, still) = drained closed r.buffer.queue same in
    (all ∙ rw kept (sym h.in_order), rw empty (rw (still, shut) refl))

-- A new buffer is empty, open and has room for at least one event, for every configured size.
pub new_event_buffer-IsExact :
    (capacity : ℤ)
    → IsExact (start (new_event_buffer capacity))
      × (0 < (new_event_buffer capacity).capacity)
      × ((new_event_buffer capacity).is_closed ≡ false)
unfolding new_event_buffer
new_event_buffer-IsExact (pos zero) = ground arith
new_event_buffer-IsExact (pos (suc n)) = ground arith
new_event_buffer-IsExact (negsuc n) = ground arith
