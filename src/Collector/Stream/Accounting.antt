-- ===== src/Collector/Stream/Accounting.antt =====
-- Where the relevant responses of the stream go (pkg/collector/client.go).
use ztre.Base.{
  ℕ, zero, suc, ◌+◌, ◌-◌, ◌≤◌, true, false, Option, none, some, List, [], ◌∷◌, ◌++◌, ◌≡◌, refl, sym,
  ap, ◌∙◌, arith, All, All-append, ltb, length, length-append, take, if_cases,
}
use mathlib.Core.List.{append_assoc, append-nil}
use ztre.Collector.Event.{SecurityEvent}
use ztre.Collector.Buffer.{EventBuffer, Pushed, push, drop_event}
use ztre.Collector.Parser.{parse}
use ztre.Collector.Parser.Relevance.{IsParsed, parse-IsParsed}
use ztre.Collector.Stream.{Received, response, end_of_file, broken, push_event, stream_events}

abbrev pub event_list : Option SecurityEvent → List SecurityEvent
event_list none = []
event_list (some e) = e ∷ []

-- The events that the parser makes of the responses, up to the end of the stream.
abbrev pub parsed_events : List Received → List SecurityEvent
parsed_events [] = []
parsed_events (response res now ∷ rest) = event_list (parse now res) ++ parsed_events rest
parsed_events (end_of_file ∷ rest) = []
parsed_events (broken b ∷ rest) = []

-- An open buffer whose queue holds parsed events.
pub record IsOpen (b : EventBuffer) : Type 0 where
  pub accepting : b.is_closed ≡ false
  pub channel : b.channel_closed ≡ false
  pub parsed : All IsParsed b.queue

-- The free places of the queue.
abbrev pub room : EventBuffer → ℕ
room b = b.capacity - length b.queue

-- The buffer `after` has got the events in their order: as many as it had room for are queued behind what was there
-- and counted as ingested, and the rest is counted as dropped.
pub record IsFed (b : EventBuffer) (events : List SecurityEvent) (after : EventBuffer)
    : Type 0 where
  pub size : after.capacity ≡ b.capacity
  pub queued : after.queue ≡ b.queue ++ take (room b) events
  pub ingested : after.ingested_total ≡ b.ingested_total + length (take (room b) events)
  pub dropped : after.dropped_total ≡ b.dropped_total + (length events - room b)

take_none {ℓ} : {A : Type ℓ} (n : ℕ) (xs : List A) → n ≡ 0 → take n xs ≡ []
take_none n xs h = rw h refl

take_nil {ℓ} : {A : Type ℓ} (n : ℕ) → take {A = A} n [] ≡ []
take_nil zero = refl
take_nil (suc n) = refl

take_one {ℓ} : {A : Type ℓ} (n : ℕ) (x : A) → 1 ≤ n → take n (x ∷ []) ≡ x ∷ []
take_one zero x h = absurd (omega (arith, h))
take_one (suc n) x h = ap (λ xs. x ∷ xs) (take_nil n)

take-append {ℓ} :
    {A : Type ℓ} (n : ℕ) (xs ys : List A) → take n (xs ++ ys) ≡ take n xs ++ take (n - length xs) ys
take-append zero xs ys = sym (take_none (0 - length xs) ys (omega arith))
take-append (suc n) [] ys = let all : suc n ≡ suc n - 0 = omega arith in ap (λ k. take k ys) all
take-append (suc n) (x ∷ xs) ys =
    let less : n - length xs ≡ suc n - suc (length xs) = omega arith in
    ap (λ zs. x ∷ zs) (take-append n xs ys) ∙ ap (λ k. x ∷ (take n xs ++ take k ys)) less

length-take {ℓ} :
    {A : Type ℓ} (n : ℕ) (xs : List A) → length (take n xs) + (length xs - n) ≡ length xs
length-take zero xs = omega arith
length-take (suc n) [] = omega arith
length-take (suc n) (x ∷ xs) = omega (arith, length-take n xs)

pub IsFed-nothing : (b : EventBuffer) → IsFed b [] b
IsFed-nothing b = record {
  size = refl;
  queued = sym (ap (λ xs. b.queue ++ xs) (take_nil (room b)) ∙ append-nil b.queue);
  ingested = rw (take_nil (room b)) (omega arith);
  dropped = omega arith;
}

pub IsFed-append :
    (b m after : EventBuffer) (es fs : List SecurityEvent)
    → IsFed b es m
    → IsFed m fs after
    → IsFed b (es ++ fs) after
IsFed-append b m after es fs h k =
    let left : room m ≡ room b - length es = omega (
      arith,
      h.size,
      ap length h.queued ∙ length-append b.queue (take (room b) es),
      length-take (room b) es,
    ) in
    let both : take (room b) (es ++ fs) ≡ take (room b) es ++ take (room m) fs =
      take-append (room b) es fs ∙ ap (λ n. take (room b) es ++ take n fs) (sym left) in
    record {
      size = k.size ∙ h.size;
      queued =
          k.queued
          ∙ ap (λ q. q ++ take (room m) fs) h.queued
          ∙ append_assoc b.queue (take (room b) es) (take (room m) fs)
          ∙ ap (λ xs. b.queue ++ xs) (sym both);
      ingested = omega (
        arith,
        k.ingested,
        h.ingested,
        ap length both ∙ length-append (take (room b) es) (take (room m) fs),
      );
      dropped = omega (arith, k.dropped, h.dropped, left, length-append es fs);
    }

full-IsFed : (b : EventBuffer) (e : SecurityEvent) → room b ≡ 0 → IsFed b (e ∷ []) (drop_event b)
unfolding drop_event
full-IsFed b e h =
    let none_taken = take_none (room b) (e ∷ []) h in
    record {
      size = refl;
      queued = sym (ap (λ xs. b.queue ++ xs) none_taken ∙ append-nil b.queue);
      ingested = omega (arith, ap length none_taken);
      dropped = omega (arith, h);
    }

room-IsFed :
    (b : EventBuffer) (e : SecurityEvent)
    → 1 ≤ room b
    → IsFed b
        (e ∷ [])
        (record b { queue = b.queue ++ (e ∷ []); ingested_total = b.ingested_total + 1 })
room-IsFed b e h =
    let one_taken = take_one (room b) e h in
    record {
      size = refl;
      queued = ap (λ xs. b.queue ++ xs) (sym one_taken);
      ingested = omega (arith, ap length one_taken);
      dropped = omega (arith, h);
    }

-- An open buffer takes an event, and stays open.
abbrev Takes : EventBuffer → List SecurityEvent → EventBuffer → Type 0
Takes b es after = IsOpen after × IsFed b es after

push-Takes :
    (b : EventBuffer) (e : SecurityEvent)
    → IsParsed e
    → IsOpen b
    → Takes b (e ∷ []) (push b (some e)).0
unfolding push drop_event
push-Takes b e p h =
    if_cases (λ (r : EventBuffer × Pushed). Takes b (e ∷ []) r.0) b.is_closed
      (λ c. absurd (clash (sym h.accepting ∙ c)))
      (λ _.
        if_cases (λ (r : EventBuffer × Pushed). Takes b (e ∷ []) r.0) b.channel_closed
          (λ c. absurd (clash (sym h.channel ∙ c)))
          (λ _.
            if_cases (λ (r : EventBuffer × Pushed). Takes b (e ∷ []) r.0)
              (ltb (length b.queue) b.capacity)
              (λ free. (
                record {
                  accepting = h.accepting;
                  channel = h.channel;
                  parsed = All-append IsParsed b.queue (e ∷ []) h.parsed (p, tt);
                },
                room-IsFed b e (ground (arith, free)),
              ))
              (λ full. (
                record { accepting = h.accepting; channel = h.channel; parsed = h.parsed },
                full-IsFed b e (ground (arith, full)),
              ))))
  where
    clash : false ≡ true → ⊥
    clash e = cc

push_event-Takes :
    (b : EventBuffer) (o : Option SecurityEvent)
    → ((e : SecurityEvent) → o ≡ some e → IsParsed e)
    → IsOpen b
    → Takes b (event_list o) (push_event b o)
push_event-Takes b none p h = (h, IsFed-nothing b)
push_event-Takes b (some e) p h = push-Takes b e (p e refl) h

-- While the buffer is open, the loop brings every event that the parser makes of a response to it, in
-- their order. Only events of pods get into the queue, and the buffer stays open.
pub stream_events-IsFed :
    (b : EventBuffer) (rs : List Received)
    → IsOpen b
    → IsOpen (stream_events b rs).0 × IsFed b (parsed_events rs) (stream_events b rs).0
unfolding stream_events
stream_events-IsFed b [] h = (h, IsFed-nothing b)
stream_events-IsFed b (response res now ∷ rest) h =
    let one = push_event-Takes b (parse now res) (parse-IsParsed now res) h in
    let b' = push_event b (parse now res) in
    let after = stream_events-IsFed b' rest one.0 in
    (
      after.0,
      IsFed-append b b' (stream_events b' rest).0 (event_list (parse now res)) (parsed_events rest)
          one.1 after.1,
    )
stream_events-IsFed b (end_of_file ∷ rest) h = (h, IsFed-nothing b)
stream_events-IsFed b (broken true ∷ rest) h = (h, IsFed-nothing b)
stream_events-IsFed b (broken false ∷ rest) h = (h, IsFed-nothing b)
